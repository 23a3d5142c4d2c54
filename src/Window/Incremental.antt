-- ===== src/Window/Incremental.antt =====
-- execution-plane/arcon/src/stream/operator/window/mod.rs: `IncrementalWindow`, on the backend in memory.
use arcon.Common.{
  ℕ, ◌≡◌, refl, Option, none, some, List, [], ◌∷◌, foldl, Res, ok, panic, ◌>>=◌, or_panic,
}
use arcon.State.Serialization.{Bytes, int_bytes}
use arcon.State.Handle.{
  Handle, with_extra, with_item_key, with_namespace, set_item_key, set_namespace,
}
use arcon.State.InMemory.{Stored, IsStored, InMemory}
use arcon.State.InMemory.Cells.{cell}
use arcon.State.InMemory.Values.{
  Aggregator, aggregator_get, aggregator_aggregate, value_clear, typed_option,
}
use arcon.State.InMemory.ValueLaws.{IsOpen, aggregate_all, aggregator_get-aggregate_all}

-- The first element initialises the accumulator. `accumulator_into_result` panics on none, which is
-- left to the caller of `get` here.
unfoldable pub incremental_aggregator :
    {IN OUT : Type 0} → (IN → OUT) → (IN → OUT → OUT) → Aggregator IN (Option OUT) (Option OUT)
incremental_aggregator init agg = record {
  create_accumulator = none;
  add = λ acc value. elim acc [ none ↦ some (init value) | some inner ↦ some (agg value inner) ];
  merge_accumulators = λ fst snd. panic;
  accumulator_into_result = λ acc. acc;
}

pub record IncrementalWindow (IN OUT : Type 0) : Type 0 where
  pub aggregator : Handle (Aggregator IN (Option OUT) (Option OUT)) ℕ ℕ

-- The name is "incremental_window_aggregating_state".
unfoldable pub new_incremental :
    {IN OUT : Type 0} → Bytes → (IN → OUT) → (IN → OUT → OUT) → IncrementalWindow IN OUT
new_incremental name init agg = record {
  aggregator =
      with_namespace 0 (with_item_key 0 (with_extra name (incremental_aggregator init agg)));
}

module _ {Any IN OUT : Type 0} (st : Stored Any (Option OUT)) (w : IncrementalWindow IN OUT) where
  -- The handle, set to the key and the index of the context.
  abbrev pub aggregator_at : ℕ → ℕ → Handle (Aggregator IN (Option OUT) (Option OUT)) ℕ ℕ
  aggregator_at key index = set_namespace index (set_item_key key w.aggregator)

  unfoldable pub incremental_on_element : IN → ℕ → ℕ → InMemory Any → Res (Unit {0}) × InMemory Any
  incremental_on_element v key index s =
      aggregator_aggregate st (int_bytes 8) (int_bytes 8) (aggregator_at key index) v s

  unfoldable pub incremental_result : ℕ → ℕ → InMemory Any → Res OUT
  incremental_result key index s =
      aggregator_get st (int_bytes 8) (int_bytes 8) s (aggregator_at key index) >>= or_panic

  unfoldable pub incremental_clear : ℕ → ℕ → InMemory Any → Res (Unit {0}) × InMemory Any
  incremental_clear key index s =
      value_clear st (int_bytes 8) (int_bytes 8) (aggregator_at key index) s

  -- The elements of a window, one after the other.
  abbrev pub incremental_all : List IN → ℕ → ℕ → InMemory Any → InMemory Any
  incremental_all [] key index s = s
  incremental_all (v ∷ vs) key index s =
      incremental_all vs key index (incremental_on_element v key index s).1

module _ {Any IN OUT : Type 0} (st : Stored Any (Option OUT)) (ok_st : IsStored st) (name : Bytes)
    (init : IN → OUT) (agg : IN → OUT → OUT) (key index : ℕ) (place : Bytes) where
  abbrev window : IncrementalWindow IN OUT
  window = new_incremental name init agg

  -- Once it has an element, the accumulator of the window holds the fold of the others over it.
  folds :
      (vs : List IN) (acc : OUT)
      → foldl (incremental_aggregator init agg).add (some acc) vs
        ≡ some (foldl (λ a x. agg x a) acc vs)
  unfolding incremental_aggregator
  folds [] acc = refl
  folds (x ∷ vs) acc = folds vs (agg x acc)

  calls_all :
      (vs : List IN) (s : InMemory Any)
      → incremental_all st window vs key index s
        ≡ aggregate_all st ok_st
            (int_bytes 8)
            (int_bytes 8)
            (aggregator_at st window key index)
            place
            vs
            s
  unfolding aggregator_aggregate incremental_on_element
  calls_all [] s = refl
  calls_all (v ∷ vs) s = calls_all vs _

  -- An incremental window to which elements are given one by one yields the fold of its function over
  -- them, started from the first; without any element it panics. The handle of its aggregator is
  -- registered, nothing stands at its key, and what the backend boxes is read back.
  pub incremental_result-incremental_all :
      (v : IN) (vs : List IN) (s : InMemory Any)
      → IsOpen (int_bytes 8) (int_bytes 8) (aggregator_at st window key index) s place
      → typed_option st (cell s name place) ≡ ok none
      → (incremental_result st window key index (incremental_all st window (v ∷ vs) key index s)
          ≡ ok (foldl (λ acc x. agg x acc) (init v) vs))
        × (incremental_result st window key index s ≡ panic)
  unfolding incremental_result incremental_aggregator new_incremental set_namespace set_item_key
      with_namespace with_item_key with_extra
  incremental_result-incremental_all v vs s o e =
      let h = aggregator_at st window key index in
      let after = aggregator_get-aggregate_all st ok_st (int_bytes 8) (int_bytes 8) h place in
      (
        rw (calls_all (v ∷ vs) s) (rw (after (v ∷ vs) s none o e) (rw (folds vs (init v)) refl)),
        rw (after [] s none o e) refl,
      )
