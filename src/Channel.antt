-- ===== src/Channel.antt =====
-- execution-plane/arcon/src/stream/channel/strategy: how the events of a node are batched and sent
-- to the nodes downstream. A channel is its position among the channels of the strategy, and what has
-- been sent is a list of messages, oldest first. A buffer writer is the events that it holds and its
-- capacity, and `BufferPool::get` gives an empty one; that a send succeeds is taken for granted.
pub mod Strategies
pub mod KeyBy
pub mod Dispatch
pub mod Delivery
pub mod Arrivals
pub mod Ranges
pub mod KeyedSteps
pub mod KeyedStores
pub mod KeyedArrivals
mod Examples
use arcon.Common.{
  ℕ, suc, ◌+◌, Bool, true, false, Option, none, some, List, [], ◌∷◌, ◌++◌, Res, ok, panic, ◌>>=◌,
  length, ltb, if◌then◌else◌,
}
use arcon.Data.{NodeId, ArconEvent, ArconEventWrapper, RawArconMessage, wrap}

pub record BufferWriter (A : Type 0) : Type 0 where
  pub events : List (ArconEventWrapper A)
  pub capacity : ℕ

-- A value that does not fit is given back.
unfoldable pub push :
    {A : Type 0}
    → ArconEventWrapper A
    → BufferWriter A
    → Option (ArconEventWrapper A) × BufferWriter A
push e w =
    if ltb (length w.events) w.capacity
    then (none, record w { events = w.events ++ e ∷ [] })
    else (some e, w)

-- The state of the strategies with one buffer. `curr_index` is that of `RoundRobin`.
pub record Batch (A : Type 0) : Type 0 where
  pub curr_buffer : BufferWriter A
  pub curr_index : ℕ
  pub sent : List (ℕ × RawArconMessage A)

abbrev pub is_element : {A : Type 0} → ArconEvent A → Bool
is_element (ArconEvent.element e) = true
is_element (ArconEvent.watermark w) = false
is_element (ArconEvent.epoch e) = false
is_element (ArconEvent.death msg) = false

module _ {A : Type 0} where
  abbrev pub set_buffer : BufferWriter A → Batch A → Batch A
  set_buffer w b = record b { curr_buffer = w }

  -- `push` of what the first `push` has given back.
  abbrev pub push_again : Option (ArconEventWrapper A) → Batch A → Batch A
  push_again none b = b
  push_again (some e) b = set_buffer (push e b.curr_buffer).1 b

  module _ (flush : Batch A → Res (Batch A)) where
    -- The rest of `add`, with the result of the first `push`: an element is flushed only if it does
    -- not fit, a marker in any case.
    abbrev pub settle : Bool → Option (ArconEventWrapper A) → Batch A → Res (Batch A)
    settle true none b = ok b
    settle true (some e) b = flush b >>= λ b'. ok (push_again (some e) b')
    settle false none b = flush b
    settle false (some e) b = flush b >>= λ b'. flush (push_again (some e) b')

    -- `add`, which reads the same in `Forward`, `Broadcast` and `RoundRobin`.
    unfoldable pub add : ArconEvent A → Batch A → Res (Batch A)
    add e b = let r = push (wrap e) b.curr_buffer in settle (is_element e) r.0 (set_buffer r.1 b)

    unfoldable pub add_all : List (ArconEvent A) → Batch A → Res (Batch A)
    add_all [] b = ok b
    add_all (e ∷ es) b = add e b >>= add_all es
