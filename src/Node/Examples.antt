-- ===== src/Node/Examples.antt =====
-- A node with two input channels, whose operator counts what it sees and sends the elements on, and
-- instances of the theorems on nodes.
use arcon.Common.{
  map, ℕ, ◌+◌, ◌≡◌, refl, true, false, panic, none, some, List, [], ◌∷◌, ◌++◌, ok, arith, inl,
  ℕ_discrete,
}
use arcon.Common.Assoc.{get, insert}
use arcon.Data.{NodeId, Epoch, ArconElement, ArconEvent, RawArconMessage, wrap, with_timestamp}
use arcon.Node.Defs.{Operator, TimerBackend, Checkpoint, Node, Config, contains, lowest}
use arcon.Node.Events.{
  handle_watermark, handle_message, handle_events, drain, drain_levels, on_start, for_each,
  receive_local, handle_event, handle_epoch, handle_element, commit_epoch, save_state,
  after_state_save,
}
use arcon.Node.Init.{new, empty_state, init_state, init_watermarks, new_metrics}
use arcon.Node.Watermarks.{IsLinedUp, WatermarkOutcome, handle_watermark-WatermarkOutcome}
use arcon.Node.Invariant.{IsValid, IsAligned}
use arcon.Node.Epochs.{unblocked}
use arcon.Node.Panics.{receive_local_panics}
use arcon.Node.Progress.{marker, Checkpointed, receive_all-Checkpointed}
use arcon.Node.Runs.{receive_all, work_through, on_start-IsValid}
use arcon.Node.Delivery.{
  Held, receive_all-Held, timely, feed, as_events, handle_events-timely, after_state_save-overtakes,
}

abbrev echo : Operator ℕ ℕ ℕ ℕ (List ℕ)
echo = record {
  handle_element =
      λ e w. record w { session = w.session + 1; sent = w.sent ++ ArconEvent.element e ∷ [] };
  handle_watermark = λ m w. w;
  handle_epoch = λ e w. w;
  handle_timeout =
      λ t w. record w { sent = w.sent ++ ArconEvent.element (with_timestamp t 0) ∷ [] };
}

-- A timer that holds its pending entries, all due at the next watermark.
abbrev one_shot : TimerBackend ℕ ℕ (List ℕ)
one_shot = record { advance_to = λ ts s. (s.1, (s.0, [])); handle_epoch = λ e s. s }

abbrev two_inputs : Config
two_inputs = record { id = 7; in_channels = 1 ∷ 2 ∷ []; checkpoint_dir = some (47 ∷ []) }

abbrev fresh : Node ℕ ℕ ℕ (List ℕ)
fresh = new two_inputs 1 empty_state 0 (5 ∷ [])

fresh-IsLinedUp : IsLinedUp 0 fresh.state
unfolding new init_state init_watermarks empty_state get insert ℕ_discrete
fresh-IsLinedUp = (refl, ((omega arith, (omega arith, tt)), inl refl))

handle_watermark-WatermarkOutcome_example :
    ((handle_watermark echo one_shot two_inputs false 1 10 fresh).0 ≡ ok tt)
    × WatermarkOutcome echo one_shot two_inputs 1 10 0 0 fresh
        (handle_watermark echo one_shot two_inputs false 1 10 fresh).1
unfolding new init_state init_watermarks empty_state get insert ℕ_discrete
handle_watermark-WatermarkOutcome_example =
    handle_watermark-WatermarkOutcome echo one_shot two_inputs 1 10 0 0 fresh fresh-IsLinedUp refl

abbrev element_of : NodeId → ℕ → RawArconMessage ℕ
element_of c ts = record {
  events = wrap (ArconEvent.element (with_timestamp 42 ts)) ∷ [];
  sender = c;
}

abbrev marker_of : NodeId → Epoch → RawArconMessage ℕ
marker_of c e = record { events = wrap (ArconEvent.epoch e) ∷ []; sender = c }

-- Channel 1 is ahead by an epoch; what it sends meanwhile is buffered, and channel 9 is unknown.
abbrev traffic : List (RawArconMessage ℕ)
traffic = marker_of 1 1 ∷ element_of 1 3 ∷ element_of 9 1 ∷ element_of 2 4 ∷ marker_of 2 1 ∷ []

-- Both elements reach the operator, and the one of channel 2 goes first.
traffic_run :
    (receive_all echo one_shot two_inputs traffic fresh).1.world.sent
    ≡ ArconEvent.element (with_timestamp 42 4)
      ∷ ArconEvent.epoch 1
      ∷ ArconEvent.element (with_timestamp 42 3)
      ∷ []
unfolding new init_state init_watermarks empty_state new_metrics get insert ℕ_discrete for_each
    receive_local handle_message handle_events handle_event handle_epoch handle_element contains
    commit_epoch save_state after_state_save drain
traffic_run = refl

-- The markers come in on the second channel first.
receive_all-Checkpointed_example :
    ((receive_all echo one_shot two_inputs (map (marker 4) (2 ∷ 1 ∷ [])) fresh).0 ≡ ok tt)
    × Checkpointed echo one_shot two_inputs
        (47 ∷ [])
        4
        fresh
        (receive_all echo one_shot two_inputs (map (marker 4) (2 ∷ 1 ∷ [])) fresh).1
unfolding new init_state init_watermarks empty_state new_metrics get insert contains ℕ_discrete
receive_all-Checkpointed_example =
    receive_all-Checkpointed echo one_shot two_inputs (47 ∷ []) (2 ∷ 1 ∷ []) 4 0 fresh refl refl
      (omega arith) refl (refl, refl, (refl, refl, tt)) refl (omega arith)

-- What the first epoch of the traffic above saves.
abbrev saved : Checkpoint ℕ ℕ
saved = record {
  base_dir = 47 ∷ [];
  id = 7;
  epoch = 1;
  node_state = record {
    watermarks = (1, 0) ∷ (2, 0) ∷ [];
    current_watermark = some 0;
    current_epoch = some 1;
    blocked_channels = (1, tt) ∷ (2, tt) ∷ [];
    message_buffer = element_of 1 3 ∷ [];
  };
  session = 1;
}

saved-IsAligned : IsAligned two_inputs saved
unfolding contains get ℕ_discrete
saved-IsAligned = record {
  sound = record {
    mark = 0;
    lined_up = (refl, ((omega arith, (omega arith, tt)), inl refl));
    known = (refl, (refl, tt));
    now = 1;
    epoch_set = refl;
    distinct = (refl, (refl, tt));
    inputs = (refl, (refl, tt));
    buffered = ((refl, (refl, tt)), tt);
  };
  all_blocked = (refl, (refl, tt));
  stamped = refl;
  named = refl;
}

abbrev restored : Node ℕ ℕ ℕ (List ℕ)
restored = new two_inputs 1 saved.node_state 1 []

on_start-IsValid_example :
    (on_start echo one_shot two_inputs true restored
      ≡ work_through echo one_shot two_inputs
          (47 ∷ [])
          refl
          (element_of 1 3 ∷ [])
          (unblocked echo one_shot two_inputs [] restored))
    × ((on_start echo one_shot two_inputs true restored).0 ≡ ok tt)
    × IsValid two_inputs (on_start echo one_shot two_inputs true restored).1
    × ((on_start echo one_shot two_inputs true restored).1.state.message_buffer ≡ [])
on_start-IsValid_example =
    on_start-IsValid echo one_shot two_inputs (47 ∷ []) refl saved 1 1 [] (omega arith)
      saved-IsAligned

-- Channel 1 is blocked.
abbrev waiting : Node ℕ ℕ ℕ (List ℕ)
waiting = record fresh { state = record fresh.state { blocked_channels = (1, tt) ∷ [] } }

receive_all-Held_example :
    ((receive_all echo one_shot two_inputs (element_of 1 3 ∷ marker_of 1 2 ∷ []) waiting).0 ≡ ok tt)
    × Held echo one_shot two_inputs
        (element_of 1 3 ∷ marker_of 1 2 ∷ [])
        waiting
        (receive_all echo one_shot two_inputs (element_of 1 3 ∷ marker_of 1 2 ∷ []) waiting).1
unfolding contains get ℕ_discrete
receive_all-Held_example =
    receive_all-Held echo one_shot two_inputs (element_of 1 3 ∷ marker_of 1 2 ∷ []) waiting
      ((refl, refl), ((refl, refl), tt))

abbrev late_and_timely : List (ArconElement ℕ)
late_and_timely =
    with_timestamp 6 0 ∷ with_timestamp 7 9 ∷ record { payload = 8; timestamp = none } ∷ []

handle_events-timely_example :
    handle_events echo one_shot two_inputs false
      (drain echo one_shot two_inputs 1)
      2
      (as_events echo one_shot two_inputs late_and_timely)
      fresh
    ≡ (
      ok tt,
      record fresh {
        world =
            feed echo one_shot two_inputs
              (timely echo one_shot two_inputs 0 late_and_timely)
              fresh.world;
      },
    )
unfolding new init_state init_watermarks empty_state get insert ℕ_discrete
handle_events-timely_example =
    handle_events-timely echo one_shot two_inputs false (drain echo one_shot two_inputs 1) 2 0
      late_and_timely fresh refl

-- A marker of the next epoch and then an element of channel 1 have been buffered.
abbrev behind : Node ℕ ℕ ℕ (List ℕ)
behind = record fresh {
  state = record fresh.state { message_buffer = marker 1 1 ∷ element_of 1 3 ∷ [] };
}

after_state_save-overtakes_example :
    (n' : Node ℕ ℕ ℕ (List ℕ)) × (after_state_save echo one_shot two_inputs
        (drain echo one_shot two_inputs drain_levels false)
        behind
      ≡ (ok tt, n'))
    × (n'.world ≡ echo.handle_element (with_timestamp 42 3) behind.world)
    × (n'.state.blocked_channels ≡ (1, tt) ∷ [])
    × (n'.checkpoints ≡ behind.checkpoints)
    × ((handle_message echo one_shot two_inputs (element_of 1 3) n').1.world ≡ n'.world)
unfolding new init_state init_watermarks empty_state get insert ℕ_discrete contains
after_state_save-overtakes_example =
    after_state_save-overtakes echo one_shot two_inputs false 1 (with_timestamp 42 3) 0 0 1 behind
      refl (omega arith) refl (omega arith) refl (omega arith) refl

-- Channel 1 is blocked and has sent a watermark since; channel 2 is ahead of it.
abbrev loaded : Node ℕ ℕ ℕ (List ℕ)
loaded = record fresh {
  state = record fresh.state {
    watermarks = (1, 0) ∷ (2, 10) ∷ [];
    blocked_channels = (1, tt) ∷ [];
    message_buffer = record { events = wrap (ArconEvent.watermark 10) ∷ []; sender = 1 } ∷ [];
  };
}

receive_local_panics_example :
    (receive_local echo one_shot two_inputs (marker 1 2) loaded).0 ≡ panic
unfolding new init_state init_watermarks empty_state get insert ℕ_discrete contains lowest
receive_local_panics_example =
    receive_local_panics echo one_shot two_inputs (47 ∷ []) 2 1 1 0 10 0 [] [] loaded refl refl refl
      refl refl (omega arith) refl refl refl (omega arith) (omega arith)
