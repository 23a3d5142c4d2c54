-- ===== src/State/Rocks/Vecs.antt =====
-- execution-plane/arcon/arcon_state/src/rocks/vec_ops.rs: a vector state is stored as its length and its
-- elements, one after the other. `vec_merge` is in Merging.
use arcon.Common.{
  ℕ, zero, suc, ◌%◌, Bool, Option, none, some, List, [], ◌∷◌, ◌++◌, Res, ok, panic, out_of_fuel,
  ◌>>=◌, ◌==◌, ltb, if◌then◌else◌, length, drop, u64_mod,
}
use arcon.State.Serialization.{
  Bytes, Target, FixedBytes, new_vec, int_serialize_into, int_deserialize_from, to_le_bytes,
}
use arcon.State.Handle.{Handle, Message, serialize_metakeys}
use arcon.State.Rocks.{Database, Rocks, when_initialized, update, db_put, db_merge}
use arcon.State.Rocks.Values.{rocks_get}

-- The loop of `vec_get` over the rest of the bytes, each round of which takes one or more of them.
unfoldable pub elements : {V : Type 0} → Message V → ℕ → Bytes → Res (List V)
elements m zero reader = out_of_fuel
elements m (suc fuel) [] = ok []
elements m (suc fuel) (b ∷ bs) =
    m.deserialize_from (b ∷ bs) >>= λ r. (elements m fuel r.1 >>= λ vs. ok (r.0 ∷ vs))

-- The elements that `vec_set` and `vec_add_all` serialise.
unfoldable pub serialize_all : {V : Type 0} → Message V → Target → List V → Res Target
serialize_all m t [] = ok t
serialize_all m t (v ∷ vs) = m.serialize_into t v >>= λ t'. serialize_all m t' vs

unfoldable pub read_vec : {V : Type 0} → Message V → Option Bytes → Res (List V)
unfolding elements
read_vec m none = ok []
read_vec m (some serialized) = do
  r ← int_deserialize_from 8 serialized
  res ← elements m (suc (length r.1)) r.1
  if length res == r.0 then ok res else panic

-- Something shorter than a length is a panic, unless it is empty.
abbrev pub read_len : Option Bytes → Res ℕ
read_len none = ok 0
read_len (some storage) =
    if length storage == 0
    then ok 0
    else if ltb (length storage) 8
    then panic
    else int_deserialize_from 8 storage >>= λ r. ok r.0

module _ {D : Type 0} (rocks : Database D) {V X IK N : Type 0} (m : Message V) (ik : FixedBytes IK)
    (ns : FixedBytes N) where
  unfoldable pub vec_append : Handle X IK N → V → Rocks D → Res (Rocks D)
  unfolding when_initialized db_merge int_serialize_into
  vec_append h value r = update rocks r λ i. (do
    key ← serialize_metakeys ik ns h
    t ← int_serialize_into 8 new_vec 1
    serialized ← m.serialize_into t value
    db_merge rocks h.id key serialized.bytes i)

  unfoldable pub vec_get : Handle X IK N → Rocks D → Res (List V)
  unfolding rocks_get read_vec
  vec_get h r = do
    key ← serialize_metakeys ik ns h
    stored ← rocks_get rocks h.id key r
    read_vec m stored

  unfoldable pub vec_set : Handle X IK N → List V → Rocks D → Res (Rocks D)
  unfolding when_initialized db_put serialize_all
  vec_set h value r = do
    key ← serialize_metakeys ik ns h
    t ← int_serialize_into 8 new_vec (length value)
    storage ← serialize_all m t value
    update rocks r (db_put rocks h.id key storage.bytes)

  -- The length is filled in when the elements have been counted.
  unfoldable pub vec_add_all : Handle X IK N → List V → Rocks D → Res (Rocks D)
  unfolding when_initialized db_merge serialize_all
  vec_add_all h values r = update rocks r λ i. (do
    key ← serialize_metakeys ik ns h
    t ← int_serialize_into 8 new_vec 0
    serialized ← serialize_all m t values
    db_merge rocks h.id key (to_le_bytes 8 (length values % u64_mod) ++ drop 8 serialized.bytes) i)

  unfoldable pub vec_len : Handle X IK N → Rocks D → Res ℕ
  unfolding rocks_get
  vec_len h r = do
    key ← serialize_metakeys ik ns h
    stored ← rocks_get rocks h.id key r
    read_len stored

  unfoldable pub vec_is_empty : Handle X IK N → Rocks D → Res Bool
  unfolding vec_len
  vec_is_empty h r = do len ← vec_len h r; ok (len == 0)
