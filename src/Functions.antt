-- ===== src/Functions.antt =====
-- execution-plane/arcon/src/stream/operator: the operators that wrap a function (function/map.rs,
-- filter.rs, flatmap.rs, map_in_place.rs), and the output of an operator's context (mod.rs). The
-- function of the user works on a session, which holds the operator's state too, and the iterator
-- that a FlatMap's function returns is a list.
pub mod Laws
mod Examples
use arcon.Common.{Bool, List, [], ◌∷◌, ◌++◌, if◌then◌else◌}
use arcon.Data.{ArconElement, ArconEvent}
use arcon.Node.Defs.{World, Operator}

-- `OperatorContext::output`.
abbrev pub output : {S T OUT : Type 0} → ArconEvent OUT → World S T OUT → World S T OUT
output event w = record w { sent = w.sent ++ event ∷ [] }

abbrev pub set_session : {S T OUT : Type 0} → S → World S T OUT → World S T OUT
set_session s w = record w { session = s }

-- `ignore_watermark!`, `ignore_epoch!` and `ignore_timeout!`.
abbrev pub ignore : {X W : Type 0} → X → W → W
ignore x w = w

-- An operator that only handles elements.
abbrev pub on_elements :
    {IN OUT TS S T : Type 0}
    → (ArconElement IN → World S T OUT → World S T OUT)
    → Operator IN OUT TS S T
on_elements handle_element = record {
  handle_element = handle_element;
  handle_watermark = ignore;
  handle_epoch = ignore;
  handle_timeout = ignore;
}

-- `new` of the four operators: a function that leaves the session alone.
abbrev pub stateless : {X Y S : Type 0} → (X → Y) → X → S → Y × S
stateless udf x s = (udf x, s)

module _ {IN OUT S T : Type 0} where
  unfoldable pub map_element : (IN → S → OUT × S) → ArconElement IN → World S T OUT → World S T OUT
  map_element udf element w =
      let r = udf element.payload w.session in
      output (ArconEvent.element (record { payload = r.0; timestamp = element.timestamp }))
        (set_session r.1 w)

  -- The loop over what the function has returned.
  unfoldable pub output_items : ArconElement IN → List OUT → World S T OUT → World S T OUT
  output_items element [] w = w
  output_items element (item ∷ items) w =
      output_items element items
        (output (ArconEvent.element (record { payload = item; timestamp = element.timestamp })) w)

  unfoldable pub flat_map_element :
      (IN → S → List OUT × S) → ArconElement IN → World S T OUT → World S T OUT
  unfolding output_items
  flat_map_element udf element w =
      let r = udf element.payload w.session in output_items element r.0 (set_session r.1 w)

module _ {IN S T : Type 0} where
  unfoldable pub filter_element :
      (IN → S → Bool × S) → ArconElement IN → World S T IN → World S T IN
  filter_element udf element w =
      let r = udf element.payload w.session in
      let w' = set_session r.1 w in if r.0 then output (ArconEvent.element element) w' else w'

  -- The function changes the payload in place.
  unfoldable pub map_in_place_element :
      (IN → S → IN × S) → ArconElement IN → World S T IN → World S T IN
  map_in_place_element udf element w =
      let r = udf element.payload w.session in
      output (ArconEvent.element (record element { payload = r.0 })) (set_session r.1 w)
