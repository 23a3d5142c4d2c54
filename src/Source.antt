-- ===== src/Source.antt =====
-- execution-plane/arcon/src/stream/source: the context that sources share (mod.rs) and the source
-- over a collection (collection.rs). The clock of the system is an argument, the list of its readings
-- in turn, and `reads` counts those that have been taken. What a component sends to itself is a
-- number of pending messages.
pub mod Collection
pub mod Laws
mod Examples
use arcon.Common.{
  ℕ, ◌+◌, Bool, true, false, Option, none, some, List, [], ◌∷◌, ◌++◌, ltb, if◌then◌else◌,
}
use arcon.Common.Assoc.{is_some}
use arcon.Data.{ArconElement, ArconEvent, new_element, with_timestamp}
use arcon.Node.Defs.{World, Operator}
use arcon.Functions.{output}

pub record SourceContext (IN OUT S T : Type 0) : Type 0 where
  pub ts_extractor : Option (IN → ℕ)
  pub current_watermark : ℕ
  pub watermark_interval : ℕ
  pub world : World S T OUT
  pub reads : ℕ

module _ {IN OUT S T : Type 0} where
  -- `SourceContext::new`, with what the operator and the timer have made of their state.
  unfoldable pub new_context : ℕ → Option (IN → ℕ) → World S T OUT → SourceContext IN OUT S T
  new_context interval extractor w = record {
    ts_extractor = extractor;
    current_watermark = 0;
    watermark_interval = interval;
    world = w;
    reads = 0;
  }

  abbrev pub has_timestamp_extractor : SourceContext IN OUT S T → Bool
  has_timestamp_extractor c = is_some c.ts_extractor

  unfoldable pub watermark_update : ℕ → SourceContext IN OUT S T → SourceContext IN OUT S T
  watermark_update ts c =
      if ltb c.current_watermark ts then record c { current_watermark = ts } else c

  abbrev pub add_event : ArconEvent OUT → SourceContext IN OUT S T → SourceContext IN OUT S T
  add_event e c = record c { world = output e c.world }

  unfoldable pub generate_death : List ℕ → SourceContext IN OUT S T → SourceContext IN OUT S T
  generate_death msg c = add_event (ArconEvent.death msg) c

  unfoldable pub extract_element :
      IN → SourceContext IN OUT S T → ArconElement IN × SourceContext IN OUT S T
  unfolding watermark_update
  extract_element value c = elim c.ts_extractor [
    | none ↦ (new_element value, c)
    | some ts_fn ↦ (with_timestamp value (ts_fn value), watermark_update (ts_fn value) c)
  ]

  module _ (clock : ℕ → ℕ) where
    -- `get_system_time`.
    abbrev read_clock : SourceContext IN OUT S T → ℕ × SourceContext IN OUT S T
    read_clock c = (clock c.reads, record c { reads = c.reads + 1 })

    unfoldable pub generate_watermark : SourceContext IN OUT S T → SourceContext IN OUT S T
    unfolding watermark_update
    generate_watermark c =
        if has_timestamp_extractor c
        then add_event (ArconEvent.watermark c.current_watermark) c
        else (let r = read_clock c in
            let c' = watermark_update r.0 r.1 in
            add_event (ArconEvent.watermark c'.current_watermark) c')

  module _ {TS : Type 0} (op : Operator IN OUT TS S T) where
    unfoldable pub process : ArconElement IN → SourceContext IN OUT S T → SourceContext IN OUT S T
    process element c = record c { world = op.handle_element element c.world }
