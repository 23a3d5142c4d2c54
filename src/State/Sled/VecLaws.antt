-- ===== src/State/Sled/VecLaws.antt =====
-- The vector states of the backend over sled against lists.
use arcon.Common.{
  ◌+◌, ◌≤◌, ◌<◌, ◌≡◌, refl, ◌∙◌, List, [], ◌∷◌, ◌++◌, arith, ok, length, length-append, u64_mod,
}
use arcon.State.Serialization.{Bytes, put_slice, FixedBytes, new_vec, to_le_bytes}
use arcon.State.Serialization.Laws.{int_writes, length-to_le_bytes}
use arcon.State.Handle.{Handle, Message, serialize_metakeys}
use arcon.State.Handle.Laws.{IsMessage}
use arcon.State.Rocks.Merging.{vec_merge}
use arcon.State.Rocks.VecLaws.{Stores, read_vec-encode_vec, vec_merge-Stores}
use arcon.State.Sled.Database.{Trees, Sled, sled_get}
use arcon.State.Sled.Vecs.{vec_append, vec_get}

-- A tree whose merge operator is `vec_merge`, as `register_vec_handle` sets it.
abbrev pub MergesVecs : {D : Type 0} → Trees D → Bytes → Type 0
MergesVecs {D} trees tree =
    (key x : Bytes) (d : D)
    → trees.get tree key (trees.merge tree key x d) ≡ vec_merge (trees.get tree key d) (x ∷ [])

module _ {D V X IK N : Type 0} (trees : Trees D) (m : Message V) (encode : V → Bytes)
    (im : IsMessage m encode) (filled : (v : V) → 0 < length (encode v)) (ik : FixedBytes IK)
    (ns : FixedBytes N) (h : Handle X IK N) (p : Bytes)
    (key : serialize_metakeys ik ns h ≡ ok p) where
  -- An append to a vector state over sled that holds a list succeeds, and `vec_get` then returns the list
  -- with the value at its end. The tree merges by `vec_merge`, and the list and the encoding of the
  -- value are short enough for their lengths.
  pub vec_append-Stores :
      (vs : List V) (v : V) (s : Sled D)
      → MergesVecs trees h.id
      → Stores m encode im filled (sled_get trees h.id p s) vs
      → length vs + 1 < u64_mod
      → 8 + length (encode v) ≤ new_vec.remaining_mut
      → ((vec_append trees m ik ns h v s).0 ≡ ok tt)
        × (vec_get trees m ik ns h (vec_append trees m ik ns h v s).1 ≡ ok (vs ++ v ∷ []))
  unfolding vec_append vec_get
  vec_append-Stores vs v s merges stores k room =
      let one = to_le_bytes 8 1 in
      let now : trees.get h.id p (trees.merge h.id p (one ++ encode v) s.db) ≡ _ =
        merges p (one ++ encode v) s.db
        ∙ vec_merge-Stores m encode im filled (sled_get trees h.id p s) vs v stores k in
      rw
        (
          key,
          int_writes 8 new_vec 1 (omega arith),
          im.writes (put_slice new_vec one) v (omega (arith, length-to_le_bytes 8 1)),
          now,
        )
        (
          refl,
          read_vec-encode_vec m encode im filled (vs ++ v ∷ [])
              (omega (arith, length-append vs (v ∷ []))),
        )
