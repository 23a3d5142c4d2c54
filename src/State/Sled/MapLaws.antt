-- ===== src/State/Sled/MapLaws.antt =====
-- The backend over sled, with what the documentation of the database promises as hypotheses: what
-- clearing a map removes, and that a restored backend has the data of the checkpoint.
use arcon.Common.{
  ◌<◌, ◌≡◌, ◌≢◌, refl, ◌∙◌, Bool, true, false, Option, none, some, List, [], ◌∷◌, ok, ite,
  if◌then◌else◌, arith, length, All, u64_mod,
}
use arcon.Common.Assoc.{get, is_some}
use arcon.State.Serialization.{Bytes, FixedBytes}
use arcon.State.Handle.{Handle, serialize_metakeys}
use arcon.State.InMemory.{bytes_discrete}
use arcon.State.Rocks.Ranges.{starts_with}
use arcon.State.Sled.Laws.{FitsTree, parse_dumped_sled_export-dump_export}
use arcon.State.Sled.Database.{Trees, Sled, sled_get, removals, remove_prefix, checkpoint, restore}
use arcon.State.Sled.Maps.{map_clear}

-- What stands under a key after a batch, by what stood there before.
unfoldable pub batched : Bytes → List (Bytes × Option Bytes) → Option Bytes → Option Bytes
batched key [] old = old
batched key ((k, change) ∷ ops) old = batched key ops (ite (bytes_discrete k key) change old)

-- What sled documents of the calls used here.
pub record IsTrees {D : Type 0} (trees : Trees D) : Type 0 where
  pub get-apply_batch :
      (tree key : Bytes) (ops : List (Bytes × Option Bytes)) (d : D)
      → trees.get tree key (trees.apply_batch tree ops d) ≡ batched key ops (trees.get tree key d)
  pub get-apply_batch_other :
      (tree other key : Bytes) (ops : List (Bytes × Option Bytes)) (d : D)
      → tree ≢ other
      → trees.get other key (trees.apply_batch tree ops d) ≡ trees.get other key d
  pub get-scan_prefix :
      (tree prefix key : Bytes) (d : D)
      → get bytes_discrete key (trees.scan_prefix tree prefix d)
        ≡ (if starts_with prefix key then trees.get tree key d else none)
  pub get-import_trees :
      (tree key : Bytes) (d : D)
      → trees.get tree key (trees.import_trees (trees.export_trees d) trees.open_empty)
        ≡ trees.get tree key d

cleared :
    (b : Bool) (o : Option Bytes)
    → (if is_some (if b then o else none) then none else o) ≡ (if b then none else o)
cleared true none = refl
cleared true (some v) = refl
cleared false o = refl

module _ {D : Type 0} (trees : Trees D) where
  batched-removals :
      (key : Bytes) (entries : List (Bytes × Bytes)) (old : Option Bytes)
      → batched key (removals trees entries) old
        ≡ (if is_some (get bytes_discrete key entries) then none else old)
  unfolding batched get
  batched-removals key [] old = refl
  batched-removals key ((k, v) ∷ entries) old =
      ground (arith, batched-removals key entries none, batched-removals key entries old)

  -- Clearing a map removes the entries of its item key and namespace, all of them, and leaves every other
  -- entry of the tree and every other tree. The keys of the handle are serialised, whatever their bytes.
  pub map_clear-removes :
      {X IK N : Type 0} (ik : FixedBytes IK) (ns : FixedBytes N) (h : Handle X IK N) (p : Bytes)
      (s : Sled D)
      → IsTrees trees
      → serialize_metakeys ik ns h ≡ ok p
      → ((map_clear trees ik ns h s).0 ≡ ok tt)
        × ((key : Bytes)
            → sled_get trees h.id key (map_clear trees ik ns h s).1
              ≡ (if starts_with p key then none else sled_get trees h.id key s))
        × ((other key : Bytes)
            → h.id ≢ other
            → sled_get trees other key (map_clear trees ik ns h s).1 ≡ sled_get trees other key s)
  unfolding map_clear remove_prefix
  map_clear-removes ik ns h p s l e =
      let ops = removals trees (trees.scan_prefix h.id p s.db) in
      rw e (
        refl,
        λ key.
            l.get-apply_batch h.id key ops s.db
            ∙ (batched-removals key (trees.scan_prefix h.id p s.db) (trees.get h.id key s.db)
                ∙ rw (l.get-scan_prefix h.id p key s.db)
                    (cleared (starts_with p key) (trees.get h.id key s.db))),
        λ other key n. l.get-apply_batch_other h.id other key ops s.db n,
      )

  -- A backend that is restored from the file of a checkpoint says so, and has under every key of every tree
  -- what the backend had that took the checkpoint. Every length in its export fits into a `usize`.
  pub restore-checkpoint :
      (s : Sled D)
      → IsTrees trees
      → length (trees.export_trees s.db) < u64_mod
      → All FitsTree (trees.export_trees s.db)
      → (s' : Sled D) × (restore trees (checkpoint trees s) ≡ ok s')
        × (s'.restored ≡ true)
        × ((tree key : Bytes) → sled_get trees tree key s' ≡ sled_get trees tree key s)
  unfolding restore checkpoint
  restore-checkpoint s l h fits =
      let exported = trees.export_trees s.db in
      rw (parse_dumped_sled_export-dump_export exported h fits) (
        record { db = trees.import_trees exported trees.open_empty; restored = true },
        refl,
        refl,
        λ tree key. l.get-import_trees tree key s.db,
      )
