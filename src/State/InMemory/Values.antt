-- ===== src/State/InMemory/Values.antt =====
-- execution-plane/arcon/arcon_state/src/in_memory/value_ops.rs, reducer_ops.rs and
-- aggregator_ops.rs: the states that hold one value under each pair of item key and namespace.
use arcon.Common.{ℕ, Bool, Option, none, some, List, Res, ok, err, Error, or_panic, ok_or}
use arcon.Common
use arcon.Common.Assoc.{get, insert, remove}
use arcon.State.Serialization.{FixedBytes}
use arcon.State.Handle.{Handle, serialize_metakeys}
use arcon.State.InMemory.{
  bytes_discrete, Stored, InMemory, M, ◌>>=◌, ◌>>◌, lift, get_table, get_mut, put_table,
}

-- `downcast_ref::<T>().context(InMemoryWrongType)`.
abbrev pub typed : {Any T : Type 0} → Stored Any T → Any → Res T
typed st dynamic = ok_or (st.downcast dynamic) Error.wrong_type

abbrev pub typed_option : {Any T : Type 0} → Stored Any T → Option Any → Res (Option T)
typed_option st none = ok none
typed_option st (some dynamic) = Common.◌>>=◌ (typed st dynamic) (λ v. ok (some v))

module _ {Any T X IK N : Type 0} (st : Stored Any T) (ik : FixedBytes IK) (ns : FixedBytes N) where
  -- `value_clear`, `reducer_clear` and `aggregator_clear`.
  unfoldable pub value_clear : Handle X IK N → M Any (Unit {0})
  unfolding get_mut put_table
  value_clear h = do
    key ← lift (serialize_metakeys ik ns h)
    table ← get_mut h
    put_table h (remove bytes_discrete key table)

  -- `value_get` and `reducer_get`.
  unfoldable pub value_get : InMemory Any → Handle X IK N → Res (Option T)
  unfolding get_table
  value_get s h = Common.◌>>=◌ (get_table s h) (λ table.
      Common.◌>>=◌ (serialize_metakeys ik ns h)
        (λ key. typed_option st (get bytes_discrete key table)))

  unfoldable pub value_set : Handle X IK N → T → M Any (Option T)
  unfolding get_mut put_table
  value_set h value = do
    key ← lift (serialize_metakeys ik ns h)
    table ← get_mut h
    put_table h (insert bytes_discrete key (st.box value) table)
    lift (typed_option st (get bytes_discrete key table))

  unfoldable pub value_fast_set : Handle X IK N → T → M Any (Unit {0})
  unfolding get_mut put_table
  value_fast_set h value = do
    key ← lift (serialize_metakeys ik ns h)
    table ← get_mut h
    put_table h (insert bytes_discrete key (st.box value) table)

abbrev pub reduced : {T : Type 0} → (T → T → T) → Option T → T → T
reduced f none value = value
reduced f (some old) value = f old value

-- A reducer is the handle's extra data: `Fn(&T, &T) -> T`.
module _ {Any T IK N : Type 0} (st : Stored Any T) (ik : FixedBytes IK) (ns : FixedBytes N) where
  unfoldable pub reducer_reduce : Handle (T → T → T) IK N → T → M Any (Unit {0})
  unfolding get_mut put_table
  reducer_reduce h value = do
    key ← lift (serialize_metakeys ik ns h)
    table ← get_mut h
    old ← lift (typed_option st (get bytes_discrete key table))
    put_table h (insert bytes_discrete key (st.box (reduced h.extra_data old value)) table)

-- The trait `Aggregator`. Merging may panic; the backend in memory never does it.
pub record Aggregator (In Acc Out : Type 0) : Type 0 where
  pub create_accumulator : Acc
  pub add : Acc → In → Acc
  pub merge_accumulators : Acc → Acc → Res Acc
  pub accumulator_into_result : Acc → Out

abbrev pub accumulated : {In Acc Out : Type 0} → Aggregator In Acc Out → Option Acc → Acc
accumulated g none = g.create_accumulator
accumulated g (some acc) = acc

module _ {Any In Acc Out IK N : Type 0} (st : Stored Any Acc) (ik : FixedBytes IK)
    (ns : FixedBytes N) where
  unfoldable pub aggregator_get : InMemory Any → Handle (Aggregator In Acc Out) IK N → Res Out
  unfolding get_table
  aggregator_get s h = Common.◌>>=◌ (serialize_metakeys ik ns h) (λ key.
      Common.◌>>=◌ (get_table s h) (λ table.
        Common.◌>>=◌ (typed_option st (get bytes_discrete key table))
          (λ acc. ok (h.extra_data.accumulator_into_result (accumulated h.extra_data acc)))))

  -- `entry(key).or_insert_with(create_accumulator)` puts the fresh accumulator in, and `add`
  -- changes it in place.
  unfoldable pub aggregator_aggregate : Handle (Aggregator In Acc Out) IK N → In → M Any (Unit {0})
  unfolding get_mut put_table
  aggregator_aggregate h value = do
    key ← lift (serialize_metakeys ik ns h)
    table ← get_mut h
    acc ← lift (typed_option st (get bytes_discrete key table))
    put_table h (
        insert bytes_discrete key (st.box (h.extra_data.add (accumulated h.extra_data acc) value))
          table)
