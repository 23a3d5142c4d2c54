-- ===== src/Node/Validity.antt =====
-- Elements and watermarks keep a node valid: a call returns, and what it leaves in the message buffer
-- is what was there or nothing, or it panics on a borrow of the metrics.
use arcon.Common.{
  ◌≡◌, refl, sym, subst, ◌⊎◌, inl, inr, true, [], Res, ok, panic, false, Bool, Option, Error, ok_or,
  ltb, leb, Bool-cases, ℕ_discrete,
}
use arcon.Data.{NodeId, Watermark, Epoch, ArconElement}
use arcon.Node.Defs.{
  World, Operator, TimerBackend, Node, Config, contains, lowest, carry_on, lift, modify, ◌>>◌,
  set_world,
}
use arcon.Common.{some}
use arcon.Common.Assoc.{get}
use arcon.Node.Events.{
  handle_element, handle_watermark, settle_watermark, advance_watermark, announce_watermark,
  timestamp_or_max,
}
use arcon.Node.Watermarks.{WatermarkOutcome, store, handle_watermark-WatermarkOutcome}
use arcon.Node.Invariant.{AllKnown, AllKnown-insert, known_of_contains, AllAligned, Rising, IsValid}

module _ {IN OUT TS S T : Type 0} (op : Operator IN OUT TS S T) (timer : TimerBackend TS S T)
    (cfg : Config) where
  -- A call returns, and leaves a valid node with the same buffer or an empty one.
  pub record Returned (n : Node IN OUT S T) (r : Res (Unit {0}) × Node IN OUT S T) : Type 0 where
    pub returns : r.0 ≡ ok tt
    pub valid : IsValid cfg r.1
    pub buffer :
        (r.1.state.message_buffer ≡ n.state.message_buffer) ⊎ (r.1.state.message_buffer ≡ [])

  pub Returned-same : (n : Node IN OUT S T) → IsValid cfg n → Returned n (ok tt, n)
  Returned-same n v = record { returns = refl; valid = v; buffer = inl refl }

  pub Returned-world :
      (n : Node IN OUT S T) (f : World S T OUT → World S T OUT)
      → IsValid cfg n
      → Returned n (ok tt, set_world f n)
  Returned-world n f v = record {
    returns = refl;
    valid = record { sound = v.sound; waiting = v.waiting; taken = v.taken; rising = v.rising };
    buffer = inl refl;
  }

  pub handle_element-Returned :
      (sender : NodeId) (e : ArconElement IN) (n : Node IN OUT S T)
      → IsValid cfg n
      → contains sender cfg.in_channels ≡ true
      → Returned n (handle_element op timer cfg sender e n)
  unfolding handle_element
  handle_element-Returned sender e n v c =
      let (w, found) =
        known_of_contains sender cfg.in_channels n.state.watermarks v.sound.known c in
      elim (Bool-cases (leb (timestamp_or_max e.timestamp) w)) [
        | inl late ↦ rw found (rw late (Returned-same n v))
        | inr timely ↦ rw found (rw timely (Returned-world n (op.handle_element e) v))
      ]

  stored-known :
      (sender : NodeId) (w old x : Watermark) (n n' : Node IN OUT S T)
      → WatermarkOutcome op timer cfg sender w old x n n'
      → IsValid cfg n
      → AllKnown cfg.in_channels n'.state.watermarks
  stored-known sender w old x n n' o v = elim (Bool-cases (leb w old)) [
    | inl late ↦ subst (AllKnown cfg.in_channels) (sym (rw late at o.stored)) v.sound.known
    | inr news ↦
        subst (AllKnown cfg.in_channels) (sym (rw news at o.stored))
          (AllKnown-insert cfg.in_channels sender w n.state.watermarks v.sound.known)
  ]

  outcome-IsValid :
      (sender : NodeId) (w old x : Watermark) (n n' : Node IN OUT S T)
      → WatermarkOutcome op timer cfg sender w old x n n'
      → IsValid cfg n
      → IsValid cfg n'
  outcome-IsValid sender w old x n n' o v = record {
    sound = record {
      mark = o.now;
      lined_up = o.lined_up;
      known = stored-known sender w old x n n' o v;
      now = v.sound.now;
      epoch_set = rw o.same_epoch v.sound.epoch_set;
      distinct = rw o.same_blocked v.sound.distinct;
      inputs = rw o.same_blocked v.sound.inputs;
      buffered = rw o.same_buffer v.sound.buffered;
    };
    waiting = rw o.same_blocked v.waiting;
    taken = rw o.same_checkpoints v.taken;
    rising = rw o.same_checkpoints v.rising;
  }

  pub handle_watermark-Returned :
      (sender : NodeId) (w : Watermark) (n : Node IN OUT S T)
      → IsValid cfg n
      → contains sender cfg.in_channels ≡ true
      → Returned n (handle_watermark op timer cfg false sender w n)
  handle_watermark-Returned sender w n v c =
      let (old, found) =
        known_of_contains sender cfg.in_channels n.state.watermarks v.sound.known c in
      let r =
        handle_watermark-WatermarkOutcome op timer cfg sender w old v.sound.mark n v.sound.lined_up
          found in
      record {
        returns = r.0;
        valid = outcome-IsValid sender w old v.sound.mark n _ r.1 v;
        buffer = inl r.1.same_buffer;
      }

  -- A call that panics on the borrow of the metrics, under the condition `P`; the checkpoints are sound.
  pub record Broke (P : Type 0) (r : Res (Unit {0}) × Node IN OUT S T) : Type 0 where
    pub panics : r.0 ≡ panic
    pub why : P
    pub taken : AllAligned cfg r.1.checkpoints
    pub last : Epoch
    pub rising : Rising r.1.checkpoints last

  abbrev pub Fine : Type 0 → Node IN OUT S T → Res (Unit {0}) × Node IN OUT S T → Type 0
  Fine P n r = Returned n r ⊎ Broke P r

  -- Under a borrow of the metrics a watermark does what it does otherwise, or panics.
  abbrev SamePanic :
      Node IN OUT S T → Res (Unit {0}) × Node IN OUT S T → Res (Unit {0}) × Node IN OUT S T → Type 0
  SamePanic n r r' = (r ≡ r') ⊎ ((r.0 ≡ panic) × (r.1.checkpoints ≡ n.checkpoints))

  settle_watermark-SamePanic :
      (old w x : Watermark) (n : Node IN OUT S T)
      → SamePanic n
          (settle_watermark op timer cfg true old w x n)
          (settle_watermark op timer cfg false old w x n)
  unfolding settle_watermark advance_watermark announce_watermark
  settle_watermark-SamePanic old w x n = elim (Bool-cases (ltb x old)) [
    | inl ahead ↦ rw ahead (inl refl)
    | inr level ↦ elim (Bool-cases (leb w x)) [
      | inl low ↦ rw level (rw low (inl refl))
      | inr high ↦ elim (Bool-cases (ltb x (lowest w n.state.watermarks))) [
        | inl up ↦ rw level (rw high (rw up (inr (refl, refl))))
        | inr same ↦ rw level (rw high (rw same (inl refl)))
      ]
    ]
  ]

  handle_watermark-SamePanic :
      (sender : NodeId) (w old x : Watermark) (n : Node IN OUT S T)
      → n.state.current_watermark ≡ some x
      → get ℕ_discrete sender n.state.watermarks ≡ some old
      → SamePanic n
          (handle_watermark op timer cfg true sender w n)
          (handle_watermark op timer cfg false sender w n)
  unfolding handle_watermark
  handle_watermark-SamePanic sender w old x n l e = elim (Bool-cases (leb w old)) [
    | inl late ↦ rw e (rw late (inl refl))
    | inr news ↦ rw e (
        rw news (
          subst
            (λ (r : Option Watermark).
              SamePanic n
                (carry_on (lift (ok_or r Error.uninitialized_watermark) n) (λ current.
                  modify (store op timer cfg sender w)
                  >> settle_watermark op timer cfg true old w current))
                (carry_on (lift (ok_or r Error.uninitialized_watermark) n) (λ current.
                  modify (store op timer cfg sender w)
                  >> settle_watermark op timer cfg false old w current)))
            (sym l) (settle_watermark-SamePanic old w x (store op timer cfg sender w n))))
  ]

  pub handle_watermark-Fine :
      (P : Type 0) (held : Bool) (sender : NodeId) (w : Watermark) (n : Node IN OUT S T)
      → (held ≡ true → P)
      → IsValid cfg n
      → contains sender cfg.in_channels ≡ true
      → Fine P n (handle_watermark op timer cfg held sender w n)
  handle_watermark-Fine P false sender w n why v c = inl (handle_watermark-Returned sender w n v c)
  handle_watermark-Fine P true sender w n why v c =
      let (old, found) =
        known_of_contains sender cfg.in_channels n.state.watermarks v.sound.known c in
      elim (handle_watermark-SamePanic sender w old v.sound.mark n v.sound.lined_up.0 found) [
        | inl same ↦ rw same (inl (handle_watermark-Returned sender w n v c))
        | inr (panics, kept) ↦ inr (record {
          panics = panics;
          why = why refl;
          taken = subst (AllAligned cfg) (sym kept) v.taken;
          last = v.sound.now;
          rising = subst (λ cs. Rising cs v.sound.now) (sym kept) v.rising;
        })
      ]
