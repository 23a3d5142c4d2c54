-- ===== src/State/Rocks/Values.antt =====
-- execution-plane/arcon/arcon_state/src/rocks/value_ops.rs, and the calls of reducer_ops.rs and
-- aggregator_ops.rs: the states with one value under each pair of item key and namespace. The protobuf
-- encoding of values is the crate prost, a parameter.
use arcon.Common.{Option, none, some, Res, ok, ◌>>=◌}
use arcon.State.Serialization.{Bytes, FixedBytes, new_vec}
use arcon.State.Handle.{Handle, Message, serialize_metakeys}
use arcon.State.Rocks.{
  Database, Rocks, when_initialized, update, db_get, db_put, db_remove, db_merge,
}

-- `protobuf::serialize` and `protobuf::deserialize`, which leaves what follows unread.
unfoldable pub serialize : {V : Type 0} → Message V → V → Res Bytes
serialize m value = m.serialize_into new_vec value >>= λ t. ok t.bytes

unfoldable pub deserialize : {V : Type 0} → Message V → Bytes → Res V
deserialize m bytes = m.deserialize_from bytes >>= λ r. ok r.0

abbrev pub deserialize_option : {V : Type 0} → Message V → Option Bytes → Res (Option V)
deserialize_option m none = ok none
deserialize_option m (some bytes) = deserialize m bytes >>= λ v. ok (some v)

module _ {D : Type 0} (rocks : Database D) where
  unfoldable pub rocks_get : Bytes → Bytes → Rocks D → Res (Option Bytes)
  unfolding when_initialized db_get
  rocks_get cf key r = when_initialized rocks r (db_get rocks cf key)

  module _ {V X IK N : Type 0} (m : Message V) (ik : FixedBytes IK) (ns : FixedBytes N) where
    -- `value_clear`, `vec_clear`, `reducer_clear` and `aggregator_clear`.
    unfoldable pub value_clear : Handle X IK N → Rocks D → Res (Rocks D)
    unfolding when_initialized db_remove
    value_clear h r = do key ← serialize_metakeys ik ns h; update rocks r (db_remove rocks h.id key)

    -- `value_get` and `reducer_get`.
    unfoldable pub value_get : Handle X IK N → Rocks D → Res (Option V)
    unfolding rocks_get
    value_get h r = do
      key ← serialize_metakeys ik ns h
      stored ← rocks_get h.id key r
      deserialize_option m stored

    unfoldable pub value_set : Handle X IK N → V → Rocks D → Res (Option V × Rocks D)
    unfolding rocks_get when_initialized db_put serialize
    value_set h value r = do
      key ← serialize_metakeys ik ns h
      stored ← rocks_get h.id key r
      old ← deserialize_option m stored
      serialized ← serialize m value
      r' ← update rocks r (db_put rocks h.id key serialized)
      ok (old, r')

    unfoldable pub value_fast_set : Handle X IK N → V → Rocks D → Res (Rocks D)
    unfolding when_initialized db_put serialize
    value_fast_set h value r = do
      key ← serialize_metakeys ik ns h
      serialized ← serialize m value
      update rocks r (db_put rocks h.id key serialized)

    unfoldable pub reducer_reduce : Handle X IK N → V → Rocks D → Res (Rocks D)
    unfolding when_initialized db_merge serialize
    reducer_reduce h value r = update rocks r λ i. (do
      key ← serialize_metakeys ik ns h
      serialized ← serialize m value
      db_merge rocks h.id key serialized i)
