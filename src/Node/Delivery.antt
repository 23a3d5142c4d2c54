-- ===== src/Node/Delivery.antt =====
-- Which events reach the operator, and which stay in the buffer.
use arcon.Common.{
  ◌<◌, ◌≡◌, ◌≢◌, ◌==◌, length, Bool, refl, sym, subst, ap, ◌∙◌, inl, inr, true, false, some, List,
  [], ◌∷◌, ◌++◌, map, append-nil, append_assoc, ok, arith, leb, if◌then◌else◌, ℕ_discrete,
  Bool-cases,
}
use arcon.Common.Assoc.{get, insert, is_some, get-insert_self}
use arcon.Data.{
  NodeId, Watermark, Epoch, ArconElement, ArconEvent, ArconEventWrapper, RawArconMessage, wrap,
}
use arcon.Node.Defs.{World, Operator, TimerBackend, Node, Config, M, contains, set_state, set_world}
use arcon.Node.Events.{
  handle_element, handle_event, handle_events, handle_message, receive_local, for_each, drain,
  after_state_save, handle_epoch, drain_levels, timestamp_or_max,
}
use arcon.Node.Runs.{receive_all}
use arcon.Node.Progress.{marker}

module _ {IN OUT TS S T : Type 0} (op : Operator IN OUT TS S T) (timer : TimerBackend TS S T)
    (cfg : Config) where
  -- Every message comes from a blocked input channel.
  abbrev pub AllHeld : List (NodeId × Unit {0}) → List (RawArconMessage IN) → Type 0
  AllHeld b [] = Unit {0}
  AllHeld b (m ∷ ms) =
      ((contains m.sender cfg.in_channels ≡ true) × (is_some (get ℕ_discrete m.sender b) ≡ true))
      × AllHeld b ms

  -- What the messages of blocked channels change: the buffer, and the meter of incoming events.
  pub record Held (ms : List (RawArconMessage IN)) (n n' : Node IN OUT S T) : Type 0 where
    pub kept : n'.state.message_buffer ≡ n.state.message_buffer ++ ms
    pub same_world : n'.world ≡ n.world
    pub same_blocked : n'.state.blocked_channels ≡ n.state.blocked_channels
    pub same_watermarks : n'.state.watermarks ≡ n.state.watermarks
    pub same_mark : n'.state.current_watermark ≡ n.state.current_watermark
    pub same_epoch : n'.state.current_epoch ≡ n.state.current_epoch
    pub same_checkpoints : n'.checkpoints ≡ n.checkpoints

  Held-one :
      (m : RawArconMessage IN) (n : Node IN OUT S T)
      → contains m.sender cfg.in_channels ≡ true
      → is_some (get ℕ_discrete m.sender n.state.blocked_channels) ≡ true
      → (n' : Node IN OUT S T) × (receive_local op timer cfg m n ≡ (ok tt, n')) × Held (m ∷ []) n n'
  unfolding receive_local handle_message
  Held-one m n c b = rw c (
      rw b (
        _,
        refl,
        record {
          kept = refl;
          same_world = refl;
          same_blocked = refl;
          same_watermarks = refl;
          same_mark = refl;
          same_epoch = refl;
          same_checkpoints = refl;
        },
      ))

  -- While a channel is blocked nothing that it sends reaches the operator: its messages stand at the
  -- end of the buffer, in the order of their arrival, and but for the metrics nothing else has changed.
  -- The senders are blocked input channels.
  pub receive_all-Held :
      (ms : List (RawArconMessage IN)) (n : Node IN OUT S T)
      → AllHeld n.state.blocked_channels ms
      → ((receive_all op timer cfg ms n).0 ≡ ok tt) × Held ms n (receive_all op timer cfg ms n).1
  unfolding for_each
  receive_all-Held [] n h = (
    refl,
    record {
      kept = sym (append-nil n.state.message_buffer);
      same_world = refl;
      same_blocked = refl;
      same_watermarks = refl;
      same_mark = refl;
      same_epoch = refl;
      same_checkpoints = refl;
    },
  )
  receive_all-Held (m ∷ ms) n h =
      let (n', e, k) = Held-one m n h.0.0 h.0.1 in
      let r = receive_all-Held ms n' (subst (λ b. AllHeld b ms) (sym k.same_blocked) h.1) in
      rw e (
        r.0,
        record {
          kept =
              r.1.kept
              ∙ (ap (λ b. b ++ ms) k.kept ∙ append_assoc n.state.message_buffer (m ∷ []) ms);
          same_world = r.1.same_world ∙ k.same_world;
          same_blocked = r.1.same_blocked ∙ k.same_blocked;
          same_watermarks = r.1.same_watermarks ∙ k.same_watermarks;
          same_mark = r.1.same_mark ∙ k.same_mark;
          same_epoch = r.1.same_epoch ∙ k.same_epoch;
          same_checkpoints = r.1.same_checkpoints ∙ k.same_checkpoints;
        },
      )

  -- The elements that are later than this watermark, in their order.
  abbrev pub timely : Watermark → List (ArconElement IN) → List (ArconElement IN)
  timely w [] = []
  timely w (e ∷ es) =
      let rest = timely w es in if leb (timestamp_or_max e.timestamp) w then rest else e ∷ rest

  abbrev pub feed : List (ArconElement IN) → World S T OUT → World S T OUT
  feed [] w = w
  feed (e ∷ es) w = feed es (op.handle_element e w)

  abbrev pub as_events : List (ArconElement IN) → List (ArconEventWrapper IN)
  as_events es = map (λ e. wrap (ArconEvent.element e)) es

  -- From a batch of elements the operator is given those that are later than the watermark of their
  -- sender, in their order, and nothing else changes. The sender has a watermark.
  pub handle_events-timely :
      (held : Bool) (d : Bool → List (RawArconMessage IN) → M IN OUT S T (Unit {0}))
      (sender : NodeId) (w : Watermark) (es : List (ArconElement IN)) (n : Node IN OUT S T)
      → get ℕ_discrete sender n.state.watermarks ≡ some w
      → handle_events op timer cfg held d sender (as_events es) n
        ≡ (ok tt, set_world (feed (timely w es)) n)
  unfolding handle_events handle_event handle_element
  handle_events-timely held d sender w [] n h = refl
  handle_events-timely held d sender w (e ∷ es) n h =
      elim (Bool-cases (leb (timestamp_or_max e.timestamp) w)) [
        | inl late ↦ rw h (rw late (handle_events-timely held d sender w es n h))
        | inr fits ↦ rw h (
            rw fits (handle_events-timely held d sender w es (set_world (op.handle_element e) n) h))
      ]

  -- The first marker of an epoch blocks its channel, with nothing else, where there are other channels.
  marker_blocks :
      (held : Bool) (d : Bool → List (RawArconMessage IN) → M IN OUT S T (Unit {0}))
      (sender : NodeId) (now later : Epoch) (n : Node IN OUT S T)
      → length cfg.in_channels ≢ 1
      → n.state.current_epoch ≡ some now
      → now < later
      → n.state.blocked_channels ≡ []
      → handle_events op timer cfg held d sender (wrap (ArconEvent.epoch later) ∷ []) n
        ≡ (ok tt, set_state (λ s. record s { blocked_channels = (sender, tt) ∷ [] }) n)
  unfolding handle_events handle_event handle_epoch insert
  marker_blocks held d sender now later n several now_set more free =
      let new : leb later now ≡ false = ground arith in
      let alone : (1 == length cfg.in_channels) ≡ false = ground arith in
      rw now_set (rw new (rw free (rw alone refl)))

  -- Messages of the buffer do not wait for a channel that a marker among them has blocked again. When a
  -- marker of a later epoch and then an element of its channel are buffered, and the channels are
  -- unblocked, the element reaches the operator although the channel is blocked and the checkpoint of
  -- that epoch is still to come; on arrival the same message is held back. The element is later than
  -- the watermark of its sender, and there are other input channels.
  pub after_state_save-overtakes :
      (held : Bool) (sender : NodeId) (e : ArconElement IN) (w : Watermark) (now later : Epoch)
      (n : Node IN OUT S T)
      → contains sender cfg.in_channels ≡ true
      → length cfg.in_channels ≢ 1
      → n.state.current_epoch ≡ some now
      → now < later
      → get ℕ_discrete sender n.state.watermarks ≡ some w
      → w < timestamp_or_max e.timestamp
      → let m : RawArconMessage IN = record { events = as_events (e ∷ []); sender = sender } in
        n.state.message_buffer ≡ marker later sender ∷ m ∷ []
        → (n' : Node IN OUT S T) × (after_state_save op timer cfg
              (drain op timer cfg drain_levels held)
              n
            ≡ (ok tt, n'))
          × (n'.world ≡ op.handle_element e n.world)
          × (n'.state.blocked_channels ≡ (sender, tt) ∷ [])
          × (n'.checkpoints ≡ n.checkpoints)
          × ((handle_message op timer cfg m n').1.world ≡ n'.world)
  unfolding after_state_save drain for_each handle_message get insert ℕ_discrete
  after_state_save-overtakes held sender e w now later n c several now_set more known late full =
      let fits : leb (timestamp_or_max e.timestamp) w ≡ false = ground arith in
      let n1 : Node IN OUT S T =
        set_state (λ s. record s { blocked_channels = []; message_buffer = [] }) n in
      let n2 : Node IN OUT S T =
        set_state (λ s. record s { blocked_channels = (sender, tt) ∷ [] }) n1 in
      let n3 : Node IN OUT S T = set_world (feed (timely w (e ∷ []))) n2 in
      let held_back : is_some (get ℕ_discrete sender ((sender, tt) ∷ [])) ≡ true =
        ap is_some (get-insert_self ℕ_discrete sender tt []) in
      let first =
        marker_blocks held (drain op timer cfg 0) sender now later n1 several now_set more refl in
      let second = handle_events-timely held (drain op timer cfg 0) sender w (e ∷ []) n2 known in
      (n3, rw full (rw first (rw second refl)), rw fits refl, refl, refl, rw c (rw held_back refl))
