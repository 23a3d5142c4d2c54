-- ===== src/State/Rocks/Laws.antt =====
-- The backend over RocksDB, with what the documentation of the database promises as hypotheses: what
-- clearing a map removes, and that a vector state is the list of its elements.
use arcon.Common.{
  ℕ, ◌<◌, ◌≡◌, refl, ap, ◌∙◌, true, Option, none, some, List, [], ◌∷◌, ◌++◌, Res, ok, if◌then◌else◌,
}
use arcon.State.Serialization.{Bytes, FixedBytes}
use arcon.State.Handle.{Handle, serialize_metakeys}
use arcon.State.Rocks.{
  Database, Merge, InitializedRocksDb, initialized, Rocks, when_initialized, range_end,
  get_cf_handle, db_get, db_remove_prefix,
}
use arcon.State.Rocks.Values.{rocks_get}
use arcon.State.Rocks.Maps.{map_clear}
use arcon.State.Rocks.Ranges.{
  less, in_range, starts_with, Last, in_range-starts_with, less-range_end,
}

-- A range that has been deleted.
pub record DeletesRange {D : Type 0} (rocks : Database D) (cf s e : Bytes) (d : D) : Type 0 where
  pub after : D
  pub succeeds : rocks.delete_range_cf cf s e d ≡ ok after
  pub has : (c : Bytes) → rocks.has_cf c after ≡ rocks.has_cf c d
  pub gets :
      (key : Bytes)
      → rocks.get_cf cf key after ≡ (if in_range s e key then none else rocks.get_cf cf key d)

-- What RocksDB documents of the deletion of a range. It promises nothing where the end of the range does
-- not come after its start.
pub record IsDatabase {D : Type 0} (rocks : Database D) : Type 0 where
  pub deletes_range :
      (cf s e : Bytes) (d : D)
      → less s e ≡ true
      → rocks.has_cf cf d ≡ true
      → DeletesRange rocks cf s e d

-- A merge operator as `set_merge_operator_associative` asks for it: the value before counts as an operand,
-- and operands that have been merged ahead of time count as they are.
pub record IsAssociative (merge : Merge) : Type 0 where
  pub chained : (x : Bytes) (rest : List Bytes) → merge (some x) rest ≡ merge none (x ∷ rest)
  pub grouped :
      (xs ys zs : List Bytes) (m : Bytes)
      → merge none ys ≡ some m
      → merge none (xs ++ m ∷ zs) ≡ merge none (xs ++ (ys ++ zs))

-- A merge is seen as the merge operator of the column family applied to the value before and the
-- operand, which RocksDB promises for an associative operator.
pub record IsMerging {D : Type 0} (rocks : Database D) (cf : Bytes) (merge : Merge) : Type 0 where
  pub has-merge :
      (c key x : Bytes) (d : D) → rocks.has_cf c (rocks.merge_cf cf key x d) ≡ rocks.has_cf c d
  pub get-merge :
      IsAssociative merge
      → (key x : Bytes) (d : D)
      → rocks.get_cf cf key (rocks.merge_cf cf key x d) ≡ merge (rocks.get_cf cf key d) (x ∷ [])

module _ {D : Type 0} (rocks : Database D) where
  -- The backend with this database, which has the column family `cf`.
  pub record IsOpen (cf : Bytes) (i : InitializedRocksDb D) (r : Rocks D) : Type 0 where
    pub ready : r.inner ≡ initialized i
    pub has : rocks.has_cf cf i.db ≡ true

  pub rocks_get_lem :
      (cf key : Bytes) (i : InitializedRocksDb D) (r : Rocks D)
      → IsOpen cf i r
      → rocks_get rocks cf key r ≡ ok (rocks.get_cf cf key i.db)
  unfolding rocks_get when_initialized db_get get_cf_handle
  rocks_get_lem cf key i r o = rw o.ready (rw o.has refl)

  -- A call that clears a map: afterwards the entries are these.
  abbrev pub Cleared : Bytes → (Bytes → Option Bytes) → Res (Rocks D) → Type 0
  Cleared cf entries result =
      (r' : Rocks D) × (result ≡ ok r')
      × ((key : Bytes) → rocks_get rocks cf key r' ≡ ok (entries key))

  module _ {X IK N : Type 0} (ik : FixedBytes IK) (ns : FixedBytes N) (h : Handle X IK N) where
    map_clear_range :
        (b : ℕ) (bs : Bytes) (i : InitializedRocksDb D) (r : Rocks D)
        → IsDatabase rocks
        → IsOpen h.id i r
        → serialize_metakeys ik ns h ≡ ok (b ∷ bs)
        → less (b ∷ bs) (range_end (b ∷ bs)) ≡ true
        → Cleared h.id
            (λ key.
              if in_range (b ∷ bs) (range_end (b ∷ bs)) key
              then none
              else rocks.get_cf h.id key i.db)
            (map_clear rocks ik ns h r)
    unfolding map_clear when_initialized db_remove_prefix get_cf_handle
    map_clear_range b bs i r l o e up =
        let end = range_end (b ∷ bs) in
        let t : DeletesRange rocks h.id (b ∷ bs) end i.db =
          l.deletes_range h.id (b ∷ bs) end i.db up o.has in
        let i' : InitializedRocksDb D = record i { db = t.after } in
        let r' : Rocks D = record r { inner = initialized i' } in
        let o' : IsOpen h.id i' r' = record { ready = refl; has = t.has h.id ∙ o.has } in
        rw e (
          rw o.ready (
            rw o.has (
              rw t.succeeds
                (r', refl, λ key. rocks_get_lem h.id key i' r' o' ∙ ap ok (t.gets key)))))

    cleared :
        (p : Bytes) (i : InitializedRocksDb D) (r : Rocks D)
        → IsDatabase rocks
        → IsOpen h.id i r
        → serialize_metakeys ik ns h ≡ ok p
        → Last (λ b. b < 255) p
        → Cleared h.id
            (λ key. if in_range p (range_end p) key then none else rocks.get_cf h.id key i.db)
            (map_clear rocks ik ns h r)
    cleared [] i r l o e last = absurd last
    cleared (b ∷ bs) i r l o e last = map_clear_range b bs i r l o e (less-range_end (b ∷ bs) last)

    -- Clearing a map state removes its entries, all those and only those that stand behind its item key
    -- and namespace, where the last byte of the two is below 255. The backend is open and has the
    -- column family of the state.
    pub map_clear-Cleared :
        (p : Bytes) (i : InitializedRocksDb D) (r : Rocks D)
        → IsDatabase rocks
        → IsOpen h.id i r
        → serialize_metakeys ik ns h ≡ ok p
        → Last (λ b. b < 255) p
        → Cleared h.id
            (λ key. if starts_with p key then none else rocks.get_cf h.id key i.db)
            (map_clear rocks ik ns h r)
    map_clear-Cleared p i r l o e last =
        let (r', q, g) = cleared p i r l o e last in
        (
          r',
          q,
          λ key.
              g key
              ∙ ap (λ t. ok (if t then none else rocks.get_cf h.id key i.db))
                  (in_range-starts_with p key last),
        )
