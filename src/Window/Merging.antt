-- ===== src/Window/Merging.antt =====
-- execution-plane/arcon/src/stream/operator/window/mod.rs: the aggregator of `IncrementalWindow` under
-- the merge operator of the backend over RocksDB.
use arcon.Common.{
  ◌+◌, ◌≤◌, ◌≡◌, refl, Option, none, some, List, ◌∷◌, ◌++◌, ok, panic, length, foldl,
}
use arcon.State.Serialization.{Bytes, new_vec}
use arcon.State.Handle.{Message}
use arcon.State.Handle.Laws.{IsMessage}
use arcon.State.InMemory.Values.{Aggregator}
use arcon.State.Rocks.Aggregators.{accumulator_marker, aggregator_merge}
use arcon.State.Rocks.AggregatorLaws.{inputs, aggregator_merge_panics}
use arcon.Window.Incremental.{incremental_aggregator}

module _ {IN OUT : Type 0} (mi : Message IN) (ma : Message (Option OUT)) (ei : IN → Bytes)
    (ea : Option OUT → Bytes) (im : IsMessage mi ei) (am : IsMessage ma ea) (init : IN → OUT)
    (agg : IN → OUT → OUT) where
  abbrev window : Aggregator IN (Option OUT) (Option OUT)
  window = incremental_aggregator init agg

  -- Once RocksDB has merged a run of elements of an incremental window ahead of time, the merge operator
  -- panics on it behind the accumulator and any elements of the window, whatever follows. The
  -- accumulator of the run fits into a vector.
  pub aggregator_merge-incremental_aggregator :
      (a : Option OUT) (vs ws : List IN) (ops : List Bytes) (m : Bytes)
      → 1 + length (ea (foldl window.add window.create_accumulator ws)) ≤ new_vec.remaining_mut
      → aggregator_merge mi ma window none (inputs mi ma ei ea im am window ws) ≡ ok (some m)
      → aggregator_merge mi ma window
          (some (accumulator_marker ∷ ea a))
          (inputs mi ma ei ea im am window vs ++ m ∷ ops)
        ≡ panic
  unfolding incremental_aggregator
  aggregator_merge-incremental_aggregator a vs ws ops m h e =
      aggregator_merge_panics mi ma ei ea im am window a vs ws ops m refl h e
