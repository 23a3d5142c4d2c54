-- ===== src/Node/Panics.antt =====
-- execution-plane/arcon/src/stream/node/mod.rs: the borrow of the metrics that the arm of an epoch holds
-- while `after_state_save` works through the message buffer.
use arcon.Common.{
  ℕ, suc, ◌<◌, ◌≡◌, refl, true, false, none, some, List, [], ◌∷◌, panic, arith, length, ltb, leb,
  ◌==◌, ℕ_discrete,
}
use arcon.Common.Assoc.{get, insert, length-insert}
use arcon.Data.{NodeId, Watermark, Epoch, ArconEvent, ArconEventWrapper, RawArconMessage, wrap}
use arcon.Node.Defs.{Operator, TimerBackend, Node, Config, contains, lowest, set_state}
use arcon.Node.Events.{
  record_incoming_events, after_state_save, handle_epoch, handle_event, handle_events,
  handle_message, receive_local, for_each, drain, drain_levels, handle_watermark, settle_watermark,
  advance_watermark, announce_watermark,
}
use arcon.Node.Watermarks.{store}
use arcon.Node.Checkpoints.{committed, commit_epoch_lem}
use arcon.Node.Progress.{marker}

module _ {IN OUT TS S T : Type 0} (op : Operator IN OUT TS S T) (timer : TimerBackend TS S T)
    (cfg : Config) where
  -- Under a borrow of the metrics, a watermark that moves the node on panics.
  handle_watermark_panics :
      (s : NodeId) (w x : Watermark) (n : Node IN OUT S T)
      → get ℕ_discrete s n.state.watermarks ≡ some x
      → n.state.current_watermark ≡ some x
      → x < w
      → x < lowest w (insert ℕ_discrete s w n.state.watermarks)
      → (n' : Node IN OUT S T) × (handle_watermark op timer cfg true s w n ≡ (panic, n'))
  unfolding handle_watermark settle_watermark advance_watermark announce_watermark
  handle_watermark_panics s w x n known mark higher lifts =
      let news : leb w x ≡ false = ground arith in
      let level : ltb x x ≡ false = ground arith in
      let up : ltb x (lowest w (insert ℕ_discrete s w n.state.watermarks)) ≡ true = ground arith in
      (
        announce_watermark op timer cfg (lowest w (insert ℕ_discrete s w n.state.watermarks))
            (store op timer cfg s w n),
        rw known (rw news (rw mark (rw level (rw news (rw up refl))))),
      )

  -- So does working through a buffer that starts with it.
  after_state_save_panics :
      (s : NodeId) (w x : Watermark) (es : List (ArconEventWrapper IN))
      (rest : List (RawArconMessage IN)) (n : Node IN OUT S T)
      → n.state.message_buffer
        ≡ record { events = wrap (ArconEvent.watermark w) ∷ es; sender = s } ∷ rest
      → get ℕ_discrete s n.state.watermarks ≡ some x
      → n.state.current_watermark ≡ some x
      → x < w
      → x < lowest w (insert ℕ_discrete s w n.state.watermarks)
      → (n' : Node IN OUT S T) × (after_state_save op timer cfg
            (drain op timer cfg drain_levels true)
            n
          ≡ (panic, n'))
  unfolding after_state_save drain for_each handle_events handle_event
  after_state_save_panics s w x es rest n full known mark higher lifts =
      let opened : Node IN OUT S T =
        set_state (λ s. record s { blocked_channels = []; message_buffer = [] }) n in
      let (n', stop) = handle_watermark_panics s w x opened known mark higher lifts in
      (n', rw full (rw stop refl))

  -- A node panics on the marker that completes an epoch, while it works through its buffer: the first
  -- message there starts with a watermark that lifts the lowest watermark of the channels. The sender
  -- of that watermark stood at the lowest, the marker comes from the last channel that is not
  -- blocked, its epoch is a later one, and a directory for checkpoints is configured.
  pub receive_local_panics :
      (base : List ℕ) (c s : NodeId) (e now : Epoch) (w x : Watermark)
      (es : List (ArconEventWrapper IN)) (rest : List (RawArconMessage IN)) (n : Node IN OUT S T)
      → cfg.checkpoint_dir ≡ some base
      → contains c cfg.in_channels ≡ true
      → get ℕ_discrete c n.state.blocked_channels ≡ none
      → suc (length n.state.blocked_channels) ≡ length cfg.in_channels
      → n.state.current_epoch ≡ some now
      → now < e
      → n.state.message_buffer
        ≡ record { events = wrap (ArconEvent.watermark w) ∷ es; sender = s } ∷ rest
      → get ℕ_discrete s n.state.watermarks ≡ some x
      → n.state.current_watermark ≡ some x
      → x < w
      → x < lowest w (insert ℕ_discrete s w n.state.watermarks)
      → (receive_local op timer cfg (marker e c) n).0 ≡ panic
  unfolding receive_local handle_message handle_events handle_event handle_epoch
  receive_local_panics base c s e now w x es rest n dir input free last set later full known mark
        higher lifts =
      let l = length-insert ℕ_discrete c tt n.state.blocked_channels free in
      let new : leb e now ≡ false = ground arith in
      let q : (length (insert ℕ_discrete c tt n.state.blocked_channels) == length cfg.in_channels)
          ≡ true =
        ground arith in
      let arrived : Node IN OUT S T =
        set_state (λ s. record s { blocked_channels = insert ℕ_discrete c tt s.blocked_channels })
          (record_incoming_events 1 n) in
      let (n', stop) =
        after_state_save_panics s w x es rest (committed op timer cfg base e arrived) full known
          mark higher lifts in
      rw input (
        rw free (
          rw set (
            rw new (
              rw q (
                rw
                  (commit_epoch_lem op timer cfg base e
                    (set_state (λ s. record s { current_epoch = some now }) arrived) dir)
                  (rw stop refl))))))
