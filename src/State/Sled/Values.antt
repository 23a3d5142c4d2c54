-- ===== src/State/Sled/Values.antt =====
-- execution-plane/arcon/arcon_state/src/sled: value_ops.rs, and reducer_ops.rs but for its merge operator,
-- which is that of the backend over RocksDB.
use arcon.Common.{Option, Res, ok, ◌>>=◌}
use arcon.State.Serialization.{FixedBytes}
use arcon.State.Handle.{Handle, Message, serialize_metakeys}
use arcon.State.Rocks.Values.{serialize, deserialize_option}
use arcon.State.Sled.Database.{Trees, Sled, Call, after, sled_get, put, sled_remove}

module _ {D : Type 0} (trees : Trees D) {V X IK N : Type 0} (m : Message V) (ik : FixedBytes IK)
    (ns : FixedBytes N) where
  -- `value_clear`, `vec_clear`, `reducer_clear` and `aggregator_clear`.
  unfoldable pub value_clear : Handle X IK N → Sled D → Call D (Unit {0})
  value_clear h s =
      after (serialize_metakeys ik ns h) s λ key. (ok tt, (sled_remove trees h.id key s).1)

  -- `value_get` and `reducer_get`.
  unfoldable pub value_get : Handle X IK N → Sled D → Res (Option V)
  value_get h s = do
    key ← serialize_metakeys ik ns h
    deserialize_option m (sled_get trees h.id key s)

  -- The old value is read once the new one is in.
  unfoldable pub value_set : Handle X IK N → V → Sled D → Call D (Option V)
  unfolding serialize
  value_set h value s = after (serialize_metakeys ik ns h) s λ key.
      after (serialize m value) s
        λ serialized. let r = put trees h.id key serialized s in (deserialize_option m r.0, r.1)

  unfoldable pub value_fast_set : Handle X IK N → V → Sled D → Call D (Unit {0})
  unfolding serialize
  value_fast_set h value s =
      after (serialize_metakeys ik ns h) s λ key.
        after (serialize m value) s λ serialized. (ok tt, (put trees h.id key serialized s).1)

  unfoldable pub reducer_reduce : Handle X IK N → V → Sled D → Call D (Unit {0})
  unfolding serialize
  reducer_reduce h value s = after (serialize_metakeys ik ns h) s λ key.
      after (serialize m value) s
        λ serialized. (ok tt, record s { db = trees.merge h.id key serialized s.db })
