-- ===== src/Functions/Examples.antt =====
-- Runs of the operators on functions and instances of their theorems.
use arcon.Common.{ℕ, ◌+◌, ◌≡◌, refl, Bool, none, List, [], ◌∷◌, ◌++◌, ok, ltb, ℕ_discrete}
use arcon.Common.Assoc.{get, insert}
use arcon.Common.{false}
use arcon.Data.{ArconElement, with_timestamp}
use arcon.Node.Defs.{World, Operator, TimerBackend, Node, Config, done, set_world}
use arcon.Node.Events.{handle_events}
use arcon.Node.Delivery.{timely, as_events}
use arcon.Node.Init.{new, init_state, init_watermarks, empty_state, new_metrics}
use arcon.Functions.{on_elements, stateless, flat_map_element}
use arcon.Functions.Laws.{outputs, handle_events-outputs}

abbrev world : World ℕ (Unit {0}) ℕ
world = record { session = 0; timer = tt; sent = [] }

abbrev six : ArconElement ℕ
six = with_timestamp 6 3

-- The filter counts what it lets through.
abbrev below_eight : ℕ → ℕ → Bool × ℕ
below_eight x seen = (ltb x 8, seen + 1)

abbrev no_timer : TimerBackend (Unit {0}) ℕ (Unit {0})
no_timer = record { advance_to = λ ts p. ([], p); handle_epoch = λ e p. p }

abbrev one_input : Config
one_input = record { id = 0; in_channels = 1 ∷ []; checkpoint_dir = none }

abbrev node : Node ℕ ℕ ℕ (Unit {0})
node = new one_input 1 empty_state 0 tt

abbrev twice : ℕ → List ℕ
twice x = x ∷ x ∷ []

abbrev twice_op : Operator ℕ ℕ (Unit {0}) ℕ (Unit {0})
twice_op = on_elements (flat_map_element (stateless twice))

handle_events-outputs_example :
    handle_events twice_op no_timer one_input false
      (λ held ms. done)
      1
      (as_events twice_op no_timer one_input (six ∷ []))
      node
    ≡ (
      ok tt,
      set_world
          (λ v. record v {
            sent = v.sent ++ outputs twice (timely twice_op no_timer one_input 0 (six ∷ []));
          })
          node,
    )
unfolding new init_state init_watermarks empty_state new_metrics get insert ℕ_discrete
handle_events-outputs_example =
    handle_events-outputs no_timer one_input twice false (λ held ms. done) 1 0 (six ∷ []) node refl
