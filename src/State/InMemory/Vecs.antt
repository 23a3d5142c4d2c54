-- ===== src/State/InMemory/Vecs.antt =====
-- execution-plane/arcon/arcon_state/src/in_memory/vec_ops.rs: a vector under each pair of item key
-- and namespace. `vec_iter` yields the elements that `vec_get` returns.
use arcon.Common.{ℕ, Bool, true, false, Option, none, some, List, [], ◌∷◌, ◌++◌, Res, ok, length}
use arcon.Common
use arcon.Common.Assoc.{get, insert, remove}
use arcon.State.Serialization.{FixedBytes}
use arcon.State.Handle.{Handle, serialize_metakeys}
use arcon.State.InMemory.{
  bytes_discrete, Stored, InMemory, M, ◌>>=◌, lift, get_table, get_mut, put_table,
}
use arcon.State.InMemory.Values.{typed_option}

abbrev pub vec_or_empty : {T : Type 0} → Option (List T) → List T
vec_or_empty none = []
vec_or_empty (some xs) = xs

abbrev pub is_nil : {T : Type 0} → List T → Bool
is_nil [] = true
is_nil (x ∷ xs) = false

module _ {Any T X IK N : Type 0} (st : Stored Any (List T)) (ik : FixedBytes IK)
    (ns : FixedBytes N) where
  unfoldable pub vec_clear : Handle X IK N → M Any (Unit {0})
  unfolding get_mut put_table
  vec_clear h = do
    key ← lift (serialize_metakeys ik ns h)
    table ← get_mut h
    put_table h (remove bytes_discrete key table)

  unfoldable pub vec_get : InMemory Any → Handle X IK N → Res (List T)
  unfolding get_table
  vec_get s h = Common.◌>>=◌ (serialize_metakeys ik ns h) (λ key.
      Common.◌>>=◌ (get_table s h) (λ table.
        Common.◌>>=◌ (typed_option st (get bytes_discrete key table)) (λ xs. ok (vec_or_empty xs))))

  -- `entry(key).or_insert_with(Vec::new)`, then `push`.
  unfoldable pub vec_append : Handle X IK N → T → M Any (Unit {0})
  unfolding get_mut put_table
  vec_append h value = do
    key ← lift (serialize_metakeys ik ns h)
    table ← get_mut h
    xs ← lift (typed_option st (get bytes_discrete key table))
    put_table h (insert bytes_discrete key (st.box (vec_or_empty xs ++ value ∷ [])) table)

  unfoldable pub vec_set : Handle X IK N → List T → M Any (Unit {0})
  unfolding get_mut put_table
  vec_set h value = do
    key ← lift (serialize_metakeys ik ns h)
    table ← get_mut h
    put_table h (insert bytes_discrete key (st.box value) table)

  unfoldable pub vec_add_all : Handle X IK N → List T → M Any (Unit {0})
  unfolding get_mut put_table
  vec_add_all h values = do
    key ← lift (serialize_metakeys ik ns h)
    table ← get_mut h
    xs ← lift (typed_option st (get bytes_discrete key table))
    put_table h (insert bytes_discrete key (st.box (vec_or_empty xs ++ values)) table)

  unfoldable pub vec_len : InMemory Any → Handle X IK N → Res ℕ
  unfolding get_table
  vec_len s h = Common.◌>>=◌ (serialize_metakeys ik ns h) (λ key.
      Common.◌>>=◌ (get_table s h) (λ table.
        Common.◌>>=◌ (typed_option st (get bytes_discrete key table))
          (λ xs. ok (length (vec_or_empty xs)))))

  unfoldable pub vec_is_empty : InMemory Any → Handle X IK N → Res Bool
  unfolding get_table
  vec_is_empty s h = Common.◌>>=◌ (serialize_metakeys ik ns h) (λ key.
      Common.◌>>=◌ (get_table s h) (λ table.
        Common.◌>>=◌ (typed_option st (get bytes_discrete key table))
          (λ xs. ok (is_nil (vec_or_empty xs)))))
