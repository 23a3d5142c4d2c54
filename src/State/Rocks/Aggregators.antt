-- ===== src/State/Rocks/Aggregators.antt =====
-- execution-plane/arcon/arcon_state/src/rocks/aggregator_ops.rs: aggregator states and the merge
-- operator of `make_aggregator_merge`. A stored value has a marker in front that tells an accumulator
-- from an input. The merge operator calls the aggregator, which may panic.
use arcon.Common.{ℕ, Option, none, some, List, [], ◌∷◌, Res, ok, panic, ◌>>=◌, ◌==◌, if◌then◌else◌}
use arcon.State.Serialization.{Bytes, put_slice, FixedBytes, new_vec}
use arcon.State.Handle.{Handle, Message, serialize_metakeys}
use arcon.State.InMemory.Values.{Aggregator}
use arcon.State.Rocks.{Database, Rocks, when_initialized, update, db_merge}
use arcon.State.Rocks.Values.{deserialize, rocks_get}
use arcon.State.Rocks.Merging.{to_option, chain}

abbrev pub accumulator_marker : ℕ
accumulator_marker = 172

abbrev pub value_marker : ℕ
value_marker = 0

-- The serialisation behind a marker, into an empty vector.
abbrev pub serialize_marked : {V : Type 0} → Message V → ℕ → V → Res Bytes
serialize_marked m marker v =
    m.serialize_into (put_slice new_vec (marker ∷ [])) v >>= λ t. ok t.bytes

module _ {In Acc Out : Type 0} (mi : Message In) (ma : Message Acc) where
  -- The slice behind the marker of an accumulator, which is asserted.
  unfoldable pub stored_accumulator : Aggregator In Acc Out → Option Bytes → Res Acc
  stored_accumulator g none = ok g.create_accumulator
  stored_accumulator g (some []) = panic
  stored_accumulator g (some (b ∷ bs)) =
      if b == accumulator_marker then deserialize ma bs else panic

  module _ {D IK N : Type 0} (rocks : Database D) (ik : FixedBytes IK) (ns : FixedBytes N) where
    unfoldable pub aggregator_get : Handle (Aggregator In Acc Out) IK N → Rocks D → Res Out
    unfolding rocks_get stored_accumulator
    aggregator_get h r = do
      key ← serialize_metakeys ik ns h
      stored ← rocks_get rocks h.id key r
      acc ← stored_accumulator h.extra_data stored
      ok (h.extra_data.accumulator_into_result acc)

    unfoldable pub aggregator_aggregate :
        Handle (Aggregator In Acc Out) IK N → In → Rocks D → Res (Rocks D)
    unfolding when_initialized db_merge
    aggregator_aggregate h value r = update rocks r λ i. (do
      key ← serialize_metakeys ik ns h
      serialized ← serialize_marked mi value_marker value
      db_merge rocks h.id key serialized i)

  module _ (g : Aggregator In Acc Out) where
    -- The first of the slices, if there is one.
    unfoldable pub first_accumulator : Bytes → Option Acc
    unfolding deserialize
    first_accumulator [] = none
    first_accumulator (b ∷ bs) =
        if b == accumulator_marker
        then to_option (deserialize ma bs)
        else if b == value_marker
        then elim (to_option (deserialize mi bs)) [
          | none ↦ none
          | some value ↦ some (g.add g.create_accumulator value)
        ]
        else none

    -- The loop over the other slices.
    unfoldable pub merge_slices : Acc → List Bytes → Res (Option Acc)
    unfolding deserialize
    merge_slices acc [] = ok (some acc)
    merge_slices acc ([] ∷ ops) = ok none
    merge_slices acc ((b ∷ bs) ∷ ops) =
        if b == accumulator_marker
        then elim (to_option (deserialize ma bs)) [
          | none ↦ ok none
          | some second ↦ (do acc' ← g.merge_accumulators acc second; merge_slices acc' ops)
        ]
        else if b == value_marker
        then elim (to_option (deserialize mi bs)) [
          | none ↦ ok none
          | some value ↦ merge_slices (g.add acc value) ops
        ]
        else ok none

    unfoldable pub merge_all : List Bytes → Res (Option Acc)
    unfolding merge_slices first_accumulator
    merge_all [] = ok (some g.create_accumulator)
    merge_all (op ∷ ops) = elim (first_accumulator op) [
      | none ↦ ok none
      | some acc ↦ merge_slices acc ops
    ]

    -- `make_aggregator_merge`.
    unfoldable pub aggregator_merge : Option Bytes → List Bytes → Res (Option Bytes)
    unfolding merge_all
    aggregator_merge first rest = do
      merged ← merge_all (chain first rest)
      ok (elim merged [
        | none ↦ none
        | some acc ↦ to_option (serialize_marked ma accumulator_marker acc)
      ])
