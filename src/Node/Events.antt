-- ===== src/Node/Events.antt =====
-- execution-plane/arcon/src/stream/node/mod.rs: what a node does with the events of a message.
use arcon.Common.{
  ℕ, zero, suc, ◌+◌, ◌%◌, Bool, true, false, not, Option, none, some, List, [], ◌∷◌, ◌++◌, Res, ok,
  err, panic, out_of_fuel, Error, ok_or, length, u64_mod, u64_max, ltb, leb, ◌==◌, if◌then◌else◌,
  ℕ_discrete,
}
use arcon.Common.Assoc.{get, insert, is_some}
use arcon.Data.{
  NodeId, Watermark, Epoch, ArconElement, ArconEvent, ArconEventWrapper, RawArconMessage, unwrap,
}
use arcon.Node.Defs.{
  World, Operator, TimerBackend, Node, Config, M, ◌>>=◌, ◌>>◌, lift, done, modify, get_state,
  contains, lowest, set_state, set_metrics, set_world, send,
}

abbrev pub timestamp_or_max : Option ℕ → ℕ
timestamp_or_max none = u64_max
timestamp_or_max (some ts) = ts

abbrev pub swallow :
    {IN OUT S T : Type 0} → Res (Unit {0}) × Node IN OUT S T → Res (Unit {0}) × Node IN OUT S T
swallow (err e, n) = (ok tt, n)
swallow (ok u, n) = (ok u, n)
swallow (panic, n) = (panic, n)
swallow (out_of_fuel, n) = (out_of_fuel, n)

abbrev pub drain_levels : ℕ
drain_levels = 1

abbrev pub record_incoming_events : {IN OUT S T : Type 0} → ℕ → Node IN OUT S T → Node IN OUT S T
record_incoming_events total =
    set_metrics (λ m. record m { inbound_throughput = (m.inbound_throughput + total) % u64_mod })

-- `metrics.borrow_mut()`, which panics while an outer call still holds its borrow of the `RefCell`.
abbrev pub borrow_metrics : {IN OUT S T : Type 0} → Bool → M IN OUT S T (Unit {0})
borrow_metrics true = lift panic
borrow_metrics false = done

module _ {IN OUT TS S T : Type 0} (op : Operator IN OUT TS S T) (timer : TimerBackend TS S T)
    (cfg : Config) where
  -- The arm `ArconEvent::Element`.
  unfoldable pub handle_element : NodeId → ArconElement IN → M IN OUT S T (Unit {0})
  handle_element sender e = do
    state ← get_state
    w ← lift (ok_or (get ℕ_discrete sender state.watermarks) Error.uninitialized_watermark)
    if leb (timestamp_or_max e.timestamp) w then done else modify (set_world (op.handle_element e))

  unfoldable pub run_timeouts : List TS → World S T OUT → World S T OUT
  run_timeouts [] w = w
  run_timeouts (t ∷ ts) w = run_timeouts ts (op.handle_timeout t w)

  -- `timer_backend.advance_to`, and the timeouts that it returns.
  unfoldable pub advance_timer : Watermark → World S T OUT → World S T OUT
  advance_timer w world =
      let r = timer.advance_to w (world.session, world.timer) in
      run_timeouts r.0 (record world { session = r.1.0; timer = r.1.1 })

  -- The new watermark of the node takes effect on its state, the operator and the timer.
  unfoldable pub announce_watermark : Watermark → Node IN OUT S T → Node IN OUT S T
  unfolding advance_timer
  announce_watermark w n =
      set_world (λ world. advance_timer w (op.handle_watermark w world))
        (set_state (λ s. record s { current_watermark = some w }) n)

  -- What is done under the borrow of the metrics.
  abbrev pub publish_watermark : Watermark → Node IN OUT S T → Node IN OUT S T
  publish_watermark w n =
      set_metrics (λ m. record m { watermark_counter = m.watermark_counter + 1 })
        (send (ArconEvent.watermark w) (set_metrics (λ m. record m { watermark = w }) n))

  unfoldable pub advance_watermark : Bool → Watermark → M IN OUT S T (Unit {0})
  unfolding announce_watermark
  advance_watermark held w = do
    modify (announce_watermark w)
    borrow_metrics held
    modify (publish_watermark w)

  -- The rest of the arm `ArconEvent::Watermark`, once the watermark of the sender is stored.
  unfoldable pub settle_watermark :
      Bool → Watermark → Watermark → Watermark → M IN OUT S T (Unit {0})
  unfolding advance_watermark
  settle_watermark held old w current = do
    state ← get_state
    let new_watermark = lowest w state.watermarks
    if ltb current old
        then done
        else if leb w current
        then done
        else if ltb current new_watermark
        then advance_watermark held new_watermark
        else done

  -- The arm `ArconEvent::Watermark`. The early return looks at the value that `insert` has replaced,
  -- which is the one read before.
  unfoldable pub handle_watermark : Bool → NodeId → Watermark → M IN OUT S T (Unit {0})
  handle_watermark held sender w = do
    state ← get_state
    old ← lift (ok_or (get ℕ_discrete sender state.watermarks) Error.uninitialized_watermark)
    if leb w old then done else (do
      current ← lift (ok_or state.current_watermark Error.uninitialized_watermark)
      modify (set_state (λ s. record s { watermarks = insert ℕ_discrete sender w s.watermarks }))
      settle_watermark held old w current)

  -- `save_state`: the checkpoint of the whole backend.
  unfoldable pub save_state : M IN OUT S T (Unit {0})
  save_state n = elim cfg.checkpoint_dir [
    | none ↦ (err Error.checkpoint_dir_missing, n)
    | some base ↦ elim n.state.current_epoch [
      | none ↦ (err Error.uninitialized_epoch, n)
      | some e ↦ (
        ok tt,
        record n {
          checkpoints =
              n.checkpoints
              ++ record {
                base_dir = base;
                id = cfg.id;
                epoch = e;
                node_state = n.state;
                session = n.world.session;
              }
                ∷ [];
        },
      )
    ]
  ]

  -- Up to the checkpoint and the forwarding of the marker.
  unfoldable pub commit_epoch : Bool → Epoch → M IN OUT S T (Unit {0})
  unfolding save_state
  commit_epoch held e = do
    modify (set_state (λ s. record s { current_epoch = some e }))
    modify (set_world (op.handle_epoch e))
    modify (
        set_world (λ w.
          let r = timer.handle_epoch e (w.session, w.timer) in
          record w { session = r.0; timer = r.1 }))
    save_state
    borrow_metrics held
    modify (set_metrics (λ m. record m { epoch = e }))
    modify (send (ArconEvent.epoch e))
    modify (set_metrics (λ m. record m { epoch_counter = m.epoch_counter + 1 }))

  -- The arm `ArconEvent::Death`: `suicide` asks the system to kill the component, and the loop
  -- goes on.
  unfoldable pub handle_death : List ℕ → M IN OUT S T (Unit {0})
  handle_death msg = do
    modify (send (ArconEvent.death msg))
    modify (λ n. record n { killed = true })

  module _ (drain : List (RawArconMessage IN) → M IN OUT S T (Unit {0})) where
    -- `after_state_save`: unblocks the channels and works through the buffer.
    unfoldable pub after_state_save : M IN OUT S T (Unit {0})
    after_state_save = do
      modify (set_state (λ s. record s { blocked_channels = [] }))
      state ← get_state
      elim state.message_buffer [
        | [] ↦ done
        | m ∷ ms ↦ (do modify (set_state (λ s. record s { message_buffer = [] })); drain (m ∷ ms))
      ]

  -- `held` is whether an outer call holds its borrow of the metrics.
  module _ (held : Bool) (drain : Bool → List (RawArconMessage IN) → M IN OUT S T (Unit {0})) where
    -- The arm `ArconEvent::Epoch`. Its borrow of the metrics lives to the end of the arm, so the buffer
    -- is worked through under it.
    unfoldable pub handle_epoch : NodeId → Epoch → M IN OUT S T (Unit {0})
    unfolding commit_epoch after_state_save
    handle_epoch sender e = do
      state ← get_state
      current ← lift (ok_or state.current_epoch Error.uninitialized_epoch)
      if leb e current then done else (do
        modify (
            set_state
              (λ s. record s { blocked_channels = insert ℕ_discrete sender tt s.blocked_channels }))
        state' ← get_state
        if length state'.blocked_channels == length cfg.in_channels
            then commit_epoch held e >> after_state_save (drain true)
            else done)

    unfoldable pub handle_event : NodeId → ArconEvent IN → M IN OUT S T (Unit {0})
    unfolding handle_element handle_watermark handle_epoch handle_death
    handle_event sender (ArconEvent.element e) = handle_element sender e
    handle_event sender (ArconEvent.watermark w) = handle_watermark held sender w
    handle_event sender (ArconEvent.epoch e) = handle_epoch sender e
    handle_event sender (ArconEvent.death msg) = handle_death msg

    -- The loop over a batch.
    unfoldable pub handle_events : NodeId → List (ArconEventWrapper IN) → M IN OUT S T (Unit {0})
    handle_events sender [] = done
    handle_events sender (e ∷ es) = do
      event ← lift (unwrap e)
      handle_event sender event
      handle_events sender es

  unfoldable pub for_each :
      (RawArconMessage IN → M IN OUT S T (Unit {0}))
      → List (RawArconMessage IN)
      → M IN OUT S T (Unit {0})
  for_each f [] = done
  for_each f (m ∷ ms) = f m >> for_each f ms

  -- The messages of the buffer. The buffer is empty while they are handled, so an epoch that they
  -- complete finds nothing to drain: one level is enough.
  unfoldable pub drain : ℕ → Bool → List (RawArconMessage IN) → M IN OUT S T (Unit {0})
  drain zero held ms = lift out_of_fuel
  drain (suc fuel) held ms = for_each (λ m. handle_events held (drain fuel) m.sender m.events) ms

  -- `handle_message` and `handle_raw_msg`, which differ in where the events are read from.
  unfoldable pub handle_message : RawArconMessage IN → M IN OUT S T (Unit {0})
  handle_message message =
      if not (contains message.sender cfg.in_channels) then lift (err Error.invalid_sender) else (do
        modify (record_incoming_events (length message.events))
        state ← get_state
        if is_some (get ℕ_discrete message.sender state.blocked_channels)
            then modify
                (set_state (λ s. record s { message_buffer = s.message_buffer ++ message ∷ [] }))
            else handle_events false (drain drain_levels) message.sender message.events)

  -- `receive_local` logs an error and goes on.
  unfoldable pub receive_local : RawArconMessage IN → M IN OUT S T (Unit {0})
  receive_local message n = swallow (handle_message message n)

  -- `receive_network`, with what the deserialisation of the message has given: a serialiser that is
  -- not known panics, a message that cannot be read is logged.
  unfoldable pub receive_network : Res (RawArconMessage IN) → M IN OUT S T (Unit {0})
  unfolding receive_local
  receive_network (ok message) n = receive_local message n
  receive_network (err e) n = (ok tt, n)
  receive_network panic n = (panic, n)
  receive_network out_of_fuel n = (out_of_fuel, n)

  -- `on_start` on a restored backend: what was buffered when the checkpoint was taken is handled.
  unfoldable pub on_start : Bool → M IN OUT S T (Unit {0})
  unfolding after_state_save
  on_start true = after_state_save (drain drain_levels false)
  on_start false = done
