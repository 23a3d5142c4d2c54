-- ===== src/Source/Examples.antt =====
-- A run of a source over a collection, and instances of the theorems on it.
use arcon.Common.{ℕ, ◌+◌, ◌≡◌, refl, some, [], ◌∷◌, arith, ok}
use arcon.Data.{ArconEvent, with_timestamp}
use arcon.Node.Defs.{Operator}
use arcon.Functions.{on_elements, stateless, map_element}
use arcon.Source.{
  SourceContext, new_context, watermark_update, extract_element, process, generate_watermark,
}
use arcon.Source.Collection.{new_source, on_start, send_record, send_records, run}
use arcon.Source.Laws.{finished, run-finished, Closing, run-Closing}

abbrev plus_ten : Operator ℕ ℕ (Unit {0}) (Unit {0}) (Unit {0})
plus_ten = on_elements (map_element (stateless (λ x. x + 10)))

-- Every value is its own timestamp, and a watermark follows every second record.
abbrev context : SourceContext ℕ ℕ (Unit {0}) (Unit {0})
context = new_context 2 (some (λ x. x)) (record { session = tt; timer = tt; sent = [] })

abbrev no_clock : ℕ → ℕ
no_clock i = 0

three_records :
    (send_records plus_ten no_clock (4 ∷ 9 ∷ 5 ∷ []) (context, 0)).0.world.sent
    ≡ ArconEvent.element (with_timestamp 14 4)
      ∷ ArconEvent.element (with_timestamp 19 9)
      ∷ ArconEvent.watermark 9
      ∷ ArconEvent.element (with_timestamp 15 5)
      ∷ []
unfolding send_records send_record extract_element watermark_update process generate_watermark
    new_context map_element
three_records = refl

run-finished_example :
    run plus_ten no_clock 5 (on_start (new_source (4 ∷ 9 ∷ 5 ∷ []) context))
    ≡ ok (finished plus_ten no_clock (4 ∷ 9 ∷ 5 ∷ []) (context, 0))
run-finished_example = run-finished plus_ten no_clock 5 (4 ∷ 9 ∷ 5 ∷ []) context (omega arith)

run-Closing_example :
    Closing plus_ten no_clock
      (λ x. x)
      (4 ∷ 9 ∷ 5 ∷ [])
      context
      (run plus_ten no_clock 5 (on_start (new_source (4 ∷ 9 ∷ 5 ∷ []) context)))
unfolding new_context
run-Closing_example =
    run-Closing plus_ten no_clock (λ x. x) 5 (4 ∷ 9 ∷ 5 ∷ []) context refl (omega arith)
