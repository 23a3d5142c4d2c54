-- ===== src/State/Rocks/VecLaws.antt =====
-- The vector states of the backend over RocksDB implement lists.
use arcon.Common.{
  ℕ, zero, suc, ◌+◌, ◌%◌, ◌≤◌, ◌<◌, ◌≡◌, refl, sym, ap, ◌∙◌, true, Option, none, some, List, [],
  ◌∷◌, ◌++◌, append_assoc, append-nil, arith, ok, length, length-append, u64_mod, inl, inr, ◌⊎◌,
  ◌>>=◌, ◌==◌,
}
use mathlib.Core.Path.{ap₂}
use arcon.State.Serialization.{Bytes, put_slice, FixedBytes, new_vec, to_le_bytes}
use arcon.State.Serialization.Laws.{int_reads, int_writes, length-to_le_bytes}
use arcon.State.Handle.{Handle, Message, serialize_metakeys}
use arcon.State.Handle.Laws.{IsMessage}
use arcon.State.Rocks.{
  Database, InitializedRocksDb, initialized, Rocks, when_initialized, get_cf_handle, db_merge,
}
use arcon.State.Rocks.Vecs.{elements, read_vec, vec_append, vec_get}
use arcon.State.Rocks.Merging.{vec_merge_from, vec_merge, vec_merge_from_step, vec_merge-vec_merge}
use arcon.State.Rocks.Laws.{IsAssociative, IsMerging, IsOpen, rocks_get_lem}

vec_merge-IsAssociative : IsAssociative vec_merge
unfolding vec_merge
vec_merge-IsAssociative = record {
  chained = λ x rest. refl;
  grouped = λ xs ys zs m h. vec_merge-vec_merge xs ys zs m h;
}

module _ {V : Type 0} (m : Message V) (encode : V → Bytes) (im : IsMessage m encode)
    (filled : (v : V) → 0 < length (encode v)) where
  abbrev pub concat : List V → Bytes
  concat [] = []
  concat (v ∷ vs) = encode v ++ concat vs

  abbrev pub encode_vec : List V → Bytes
  encode_vec vs = to_le_bytes 8 (length vs) ++ concat vs

  concat-append : (vs ws : List V) → concat (vs ++ ws) ≡ concat vs ++ concat ws
  concat-append [] ws = refl
  concat-append (v ∷ vs) ws =
      ap (λ l. encode v ++ l) (concat-append vs ws)
      ∙ sym (append_assoc (encode v) (concat vs) (concat ws))

  elements_step :
      (fuel : ℕ) (reader : Bytes)
      → 0 < length reader
      → elements m (suc fuel) reader
        ≡ (m.deserialize_from reader >>= λ r. (elements m fuel r.1 >>= λ vs. ok (r.0 ∷ vs)))
  unfolding elements
  elements_step fuel [] h = absurd (omega arith)
  elements_step fuel (b ∷ bs) h = refl

  elements_lem :
      (fuel : ℕ) (vs : List V) → length (concat vs) < fuel → elements m fuel (concat vs) ≡ ok vs
  unfolding elements
  elements_lem zero vs h = absurd (omega arith)
  elements_lem (suc fuel) [] h = refl
  elements_lem (suc fuel) (v ∷ vs) h =
      let l = length-append (encode v) (concat vs) in
      elements_step fuel (encode v ++ concat vs) (omega (arith, filled v))
      ∙ rw (im.reads v (concat vs)) (rw (elements_lem fuel vs (omega (arith, filled v))) refl)

  pub read_vec-encode_vec :
      (vs : List V) → length vs < u64_mod → read_vec m (some (encode_vec vs)) ≡ ok vs
  unfolding read_vec
  read_vec-encode_vec vs h =
      let same : (length vs == length vs) ≡ true = ground arith in
      rw (int_reads 8 (length vs) (concat vs) (omega arith))
        (rw (elements_lem (suc (length (concat vs))) vs (omega arith)) (rw same refl))

  -- The merge operator appends.
  vec_merge-encode_vec :
      (vs : List V) (v : V)
      → length vs + 1 < u64_mod
      → vec_merge (some (encode_vec vs)) ((to_le_bytes 8 1 ++ encode v) ∷ [])
        ≡ some (encode_vec (vs ++ v ∷ []))
  unfolding vec_merge vec_merge_from
  vec_merge-encode_vec vs v h =
      let n = length vs in
      vec_merge_from_step 0 n [] (concat vs) ((to_le_bytes 8 1 ++ encode v) ∷ []) (omega arith)
      ∙ (vec_merge_from_step ((0 + n) % u64_mod) 1 (concat vs) (encode v) [] (omega arith)
          ∙ ap₂ (λ k l. some (to_le_bytes 8 k ++ l)) (omega (arith, length-append vs (v ∷ [])))
              (sym (concat-append vs (v ∷ []) ∙ ap (λ l. concat vs ++ l) (append-nil (encode v)))))

  -- What is stored stands for the list of the elements.
  abbrev pub Stores : Option Bytes → List V → Type 0
  Stores stored vs = (stored ≡ some (encode_vec vs)) ⊎ ((stored ≡ none) × (vs ≡ []))

  pub vec_merge-Stores :
      (stored : Option Bytes) (vs : List V) (v : V)
      → Stores stored vs
      → length vs + 1 < u64_mod
      → vec_merge stored ((to_le_bytes 8 1 ++ encode v) ∷ []) ≡ some (encode_vec (vs ++ v ∷ []))
  unfolding vec_merge
  vec_merge-Stores stored vs v (inl e) h = rw e (vec_merge-encode_vec vs v h)
  vec_merge-Stores stored vs v (inr (e, n)) h =
      rw (e, n)
        (vec_merge_from_step 0 1 [] (encode v) [] (omega arith)
          ∙ ap₂ (λ k l. some (to_le_bytes 8 k ++ l)) (omega arith) (sym (append-nil (encode v))))

  module _ {D X IK N : Type 0} (rocks : Database D) (ik : FixedBytes IK) (ns : FixedBytes N)
      (h : Handle X IK N) (p : Bytes) (key : serialize_metakeys ik ns h ≡ ok p) where
    -- An open backend whose vector state holds these elements.
    pub record HoldsVec (vs : List V) (r : Rocks D) : Type 0 where
      pub inside : InitializedRocksDb D
      pub open_db : IsOpen rocks h.id inside r
      pub stores : Stores (rocks.get_cf h.id p inside.db) vs

    -- `vec_get` returns the elements of a vector state that it holds.
    vec_get_lem :
        (vs : List V) (r : Rocks D)
        → HoldsVec vs r
        → length vs < u64_mod
        → vec_get rocks m ik ns h r ≡ ok vs
    unfolding vec_get
    vec_get_lem vs r v k = rw key (
        rw (rocks_get_lem rocks h.id p v.inside r v.open_db)
          (elim v.stores [ inl e ↦ rw e (read_vec-encode_vec vs k) | inr (e, n) ↦ rw (e, n) refl ]))

    appended :
        (vs : List V) (v : V) (r : Rocks D)
        → IsMerging rocks h.id vec_merge
        → HoldsVec vs r
        → length vs + 1 < u64_mod
        → 8 + length (encode v) ≤ new_vec.remaining_mut
        → (r' : Rocks D) × (vec_append rocks m ik ns h v r ≡ ok r') × HoldsVec (vs ++ v ∷ []) r'
    unfolding vec_append when_initialized db_merge get_cf_handle
    appended vs v r l s k room =
        let one = to_le_bytes 8 1 in
        let i : InitializedRocksDb D = s.inside in
        let i' : InitializedRocksDb D = record i {
          db = rocks.merge_cf h.id p (one ++ encode v) i.db;
        } in
        let r' : Rocks D = record r { inner = initialized i' } in
        let o = s.open_db in
        rw o.ready (
          rw key (
            rw (int_writes 8 new_vec 1 (omega arith)) (
              rw (im.writes (put_slice new_vec one) v (omega (arith, length-to_le_bytes 8 1))) (
                rw o.has (
                  r',
                  refl,
                  record {
                    inside = i';
                    open_db = record {
                      ready = refl;
                      has = l.has-merge h.id p (one ++ encode v) i.db ∙ o.has;
                    };
                    stores = inl (
                        l.get-merge vec_merge-IsAssociative p (one ++ encode v) i.db
                        ∙ vec_merge-Stores (rocks.get_cf h.id p i.db) vs v s.stores k);
                  },
                )))))

    -- An append to a vector state that holds a list succeeds, and the state then holds the list with the
    -- value at its end: that is what `vec_get` returns. The backend is open, the database merges by
    -- `vec_merge`, and the list and the encoding of the value are short enough for their lengths.
    pub vec_append-HoldsVec :
        (vs : List V) (v : V) (r : Rocks D)
        → IsMerging rocks h.id vec_merge
        → HoldsVec vs r
        → length vs + 1 < u64_mod
        → 8 + length (encode v) ≤ new_vec.remaining_mut
        → (r' : Rocks D) × (vec_append rocks m ik ns h v r ≡ ok r')
          × HoldsVec (vs ++ v ∷ []) r'
          × (vec_get rocks m ik ns h r' ≡ ok (vs ++ v ∷ []))
    vec_append-HoldsVec vs v r l s k room =
        let (r', e, s') = appended vs v r l s k room in
        (r', e, s', vec_get_lem (vs ++ v ∷ []) r' s' (omega (arith, length-append vs (v ∷ []))))
