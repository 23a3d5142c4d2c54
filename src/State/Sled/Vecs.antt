-- ===== src/State/Sled/Vecs.antt =====
-- execution-plane/arcon/arcon_state/src/sled: vec_ops.rs and aggregator_ops.rs but for their merge
-- operators. Those are the functions of the backend over RocksDB, given the value that exists and one
-- operand.
use arcon.Common.{
  ℕ, ◌%◌, Bool, Option, none, some, List, ◌++◌, Res, ok, ◌>>=◌, ◌==◌, if◌then◌else◌, length, drop,
  u64_mod,
}
use arcon.State.Serialization.{
  Bytes, FixedBytes, new_vec, int_serialize_into, int_deserialize_from, to_le_bytes,
}
use arcon.State.Handle.{Handle, Message, serialize_metakeys}
use arcon.State.InMemory.Values.{Aggregator}
use arcon.State.Rocks.Vecs.{read_vec, serialize_all}
use arcon.State.Rocks.Aggregators.{value_marker, serialize_marked, stored_accumulator}
use arcon.State.Sled.Database.{Trees, Sled, Call, after, sled_get, put}

abbrev pub stored_len : Option Bytes → Res ℕ
stored_len none = ok 0
stored_len (some storage) =
    if length storage == 0 then ok 0 else int_deserialize_from 8 storage >>= λ r. ok r.0

module _ {D : Type 0} (trees : Trees D) where
  abbrev pub merge_into : Bytes → Bytes → Bytes → Sled D → Sled D
  merge_into tree key operand s = record s { db = trees.merge tree key operand s.db }

  module _ {V X IK N : Type 0} (m : Message V) (ik : FixedBytes IK) (ns : FixedBytes N) where
    unfoldable pub vec_append : Handle X IK N → V → Sled D → Call D (Unit {0})
    unfolding int_serialize_into
    vec_append h value s = after (serialize_metakeys ik ns h) s λ key.
        after (int_serialize_into 8 new_vec 1) s λ t.
          after (m.serialize_into t value) s
            λ serialized. (ok tt, merge_into h.id key serialized.bytes s)

    unfoldable pub vec_get : Handle X IK N → Sled D → Res (List V)
    unfolding read_vec
    vec_get h s = do key ← serialize_metakeys ik ns h; read_vec m (sled_get trees h.id key s)

    unfoldable pub vec_set : Handle X IK N → List V → Sled D → Call D (Unit {0})
    unfolding serialize_all int_serialize_into
    vec_set h value s = after (serialize_metakeys ik ns h) s λ key.
        after (int_serialize_into 8 new_vec (length value)) s λ t.
          after (serialize_all m t value) s
            λ storage. (ok tt, (put trees h.id key storage.bytes s).1)

    -- The length is filled in when the elements have been counted.
    unfoldable pub vec_add_all : Handle X IK N → List V → Sled D → Call D (Unit {0})
    unfolding serialize_all int_serialize_into
    vec_add_all h values s = after (serialize_metakeys ik ns h) s λ key.
        after (int_serialize_into 8 new_vec 0) s λ t.
          after (serialize_all m t values) s λ serialized. (
            ok tt,
            merge_into h.id key (to_le_bytes 8 (length values % u64_mod) ++ drop 8 serialized.bytes)
                s,
          )

    unfoldable pub vec_len : Handle X IK N → Sled D → Res ℕ
    vec_len h s = do key ← serialize_metakeys ik ns h; stored_len (sled_get trees h.id key s)

    unfoldable pub vec_is_empty : Handle X IK N → Sled D → Res Bool
    unfolding vec_len
    vec_is_empty h s = do len ← vec_len h s; ok (len == 0)

  module _ {In Acc Out IK N : Type 0} (mi : Message In) (ma : Message Acc) (ik : FixedBytes IK)
      (ns : FixedBytes N) where
    unfoldable pub aggregator_get : Handle (Aggregator In Acc Out) IK N → Sled D → Res Out
    unfolding stored_accumulator
    aggregator_get h s = do
      key ← serialize_metakeys ik ns h
      acc ← stored_accumulator mi ma h.extra_data (sled_get trees h.id key s)
      ok (h.extra_data.accumulator_into_result acc)

    unfoldable pub aggregator_aggregate :
        Handle (Aggregator In Acc Out) IK N → In → Sled D → Call D (Unit {0})
    aggregator_aggregate h value s = after (serialize_metakeys ik ns h) s λ key.
        after (serialize_marked mi value_marker value) s
          λ serialized. (ok tt, merge_into h.id key serialized s)
