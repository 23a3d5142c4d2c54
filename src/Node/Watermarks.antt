-- ===== src/Node/Watermarks.antt =====
-- The watermark of a node is the lowest of its channels: the early returns of the arm
-- `ArconEvent::Watermark` are optimisations of that.
use arcon.Common.{
  ◌≤◌, ◌<◌, ◌≡◌, refl, sym, subst, ok_or, inl, inr, false, Option, some, [], ◌∷◌, ◌++◌, ok, Error,
  arith, ltb, leb, if◌then◌else◌, ℕ_discrete, Bool-cases,
}
use arcon.Common.Assoc.{get, insert}
use arcon.Data.{NodeId, Watermark, ArconEvent}
use arcon.Node.Defs.{
  World, Operator, TimerBackend, NodeState, Node, Config, lowest, set_state, carry_on, lift, modify,
  ◌>>◌,
}
use arcon.Node.Events.{
  handle_watermark, settle_watermark, advance_watermark, announce_watermark, publish_watermark,
  advance_timer,
}
use arcon.Node.Lowest.{
  Watermarks, IsLowest, AllGe-get, lowest-IsLowest, IsLowest-insert_ahead, IsLowest-insert_same,
}

-- The current watermark of a node is the lowest of its channels.
abbrev pub IsLinedUp : {IN : Type 0} → Watermark → NodeState IN → Type 0
IsLinedUp x s = (s.current_watermark ≡ some x) × IsLowest x s.watermarks

module _ {IN OUT TS S T : Type 0} (op : Operator IN OUT TS S T) (timer : TimerBackend TS S T)
    (cfg : Config) where
  -- What the operator, the timer and the channel strategy see when the watermark of the node rises:
  -- the operator first, then the timeouts that have become due, then the watermark goes on.
  abbrev pub raised : Watermark → World S T OUT → World S T OUT
  raised y w =
      let w' = advance_timer op timer cfg y (op.handle_watermark y w) in
      record w' { sent = w'.sent ++ ArconEvent.watermark y ∷ [] }

  -- After a watermark `w` from `sender`, whose watermark was `old`, on a node that stood at `x`.
  pub record WatermarkOutcome (sender : NodeId) (w old x : Watermark) (n n' : Node IN OUT S T)
      : Type 0 where
    pub now : Watermark
    pub lined_up : IsLinedUp now n'.state
    pub rises : x ≤ now
    pub stored :
        n'.state.watermarks
        ≡ (if leb w old then n.state.watermarks else insert ℕ_discrete sender w n.state.watermarks)
    pub effect : n'.world ≡ (if ltb x now then raised now n.world else n.world)
    pub same_epoch : n'.state.current_epoch ≡ n.state.current_epoch
    pub same_blocked : n'.state.blocked_channels ≡ n.state.blocked_channels
    pub same_buffer : n'.state.message_buffer ≡ n.state.message_buffer
    pub same_checkpoints : n'.checkpoints ≡ n.checkpoints

  -- The node once the watermark of the sender has been stored.
  abbrev with_watermark : NodeId → Watermark → Node IN OUT S T → Node IN OUT S T
  with_watermark sender w n = record n {
    state = record n.state { watermarks = insert ℕ_discrete sender w n.state.watermarks };
  }

  module _ (sender : NodeId) (w old x : Watermark) (n : Node IN OUT S T) (l : IsLinedUp x n.state)
      (e : get ℕ_discrete sender n.state.watermarks ≡ some old) (news : leb w old ≡ false) where
    stays :
        IsLowest x (insert ℕ_discrete sender w n.state.watermarks)
        → WatermarkOutcome sender w old x n (with_watermark sender w n)
    stays h = record {
      now = x;
      lined_up = (l.0, h);
      rises = omega arith;
      stored = rw news refl;
      effect = ground arith;
      same_epoch = refl;
      same_blocked = refl;
      same_buffer = refl;
      same_checkpoints = refl;
    }

    moves :
        (y : Watermark)
        → x < y
        → IsLowest y (insert ℕ_discrete sender w n.state.watermarks)
        → WatermarkOutcome sender w old x n (
            publish_watermark op timer cfg y
              (announce_watermark op timer cfg y (with_watermark sender w n)))
    unfolding announce_watermark
    moves y up h = record {
      now = y;
      lined_up = (refl, h);
      rises = omega arith;
      stored = rw news refl;
      effect = ground arith;
      same_epoch = refl;
      same_blocked = refl;
      same_buffer = refl;
      same_checkpoints = refl;
    }

    settles :
        ((settle_watermark op timer cfg false old w x (with_watermark sender w n)).0 ≡ ok tt)
        × WatermarkOutcome sender w old x n
            (settle_watermark op timer cfg false old w x (with_watermark sender w n)).1
    unfolding settle_watermark advance_watermark
    settles =
        let m' : Watermarks = insert ℕ_discrete sender w n.state.watermarks in
        elim (Bool-cases (ltb x old)) [
          | inl ahead ↦ rw ahead (
            refl,
            stays (IsLowest-insert_ahead x w old sender _ l.1 e (ground arith) (ground arith)),
          )
          | inr level ↦ elim (Bool-cases (leb w x)) [
            | inl low ↦ absurd (ground (arith, AllGe-get x old sender n.state.watermarks l.1.0 e))
            | inr high ↦ elim (Bool-cases (ltb x (lowest w m'))) [
              | inl up ↦ rw level (
                  rw high
                    (rw up (refl, moves (lowest w m') (ground arith) (lowest-IsLowest w sender _))))
              | inr same ↦ rw level (
                  rw high (
                    rw same (
                      refl,
                      stays (
                          IsLowest-insert_same x w old sender _ l.1 e (ground arith)
                            (ground arith)),
                    )))
            ]
          ]
        ]

  abbrev pub store : NodeId → Watermark → Node IN OUT S T → Node IN OUT S T
  store sender w =
      set_state (λ s. record s { watermarks = insert ℕ_discrete sender w s.watermarks })

  -- After a watermark the node stands at the lowest of its channels, never lower than before, and the
  -- operator, the timers and the output are told exactly when that lowest one has risen. The node stood
  -- at the lowest watermark of its channels, the sender has one, and nobody holds the metrics.
  pub handle_watermark-WatermarkOutcome :
      (sender : NodeId) (w old x : Watermark) (n : Node IN OUT S T)
      → IsLinedUp x n.state
      → get ℕ_discrete sender n.state.watermarks ≡ some old
      → ((handle_watermark op timer cfg false sender w n).0 ≡ ok tt)
        × WatermarkOutcome sender w old x n (handle_watermark op timer cfg false sender w n).1
  unfolding handle_watermark
  handle_watermark-WatermarkOutcome sender w old x n l e = elim (Bool-cases (leb w old)) [
    | inl late ↦ rw e (
        rw late (
          refl,
          record {
            now = x;
            lined_up = l;
            rises = omega arith;
            stored = rw late refl;
            effect = ground arith;
            same_epoch = refl;
            same_blocked = refl;
            same_buffer = refl;
            same_checkpoints = refl;
          },
        ))
    | inr news ↦ rw e (
        rw news (
          subst
            (λ (r : Option Watermark).
              ((carry_on (lift (ok_or r Error.uninitialized_watermark) n) (λ current.
                  modify (store sender w) >> settle_watermark op timer cfg false old w current)).0
                ≡ ok tt)
              × WatermarkOutcome sender w old x n
                  (carry_on (lift (ok_or r Error.uninitialized_watermark) n) (λ current.
                    modify (store sender w)
                    >> settle_watermark op timer cfg false old w current)).1)
            (sym l.0) (settles sender w old x n l e news)))
  ]
