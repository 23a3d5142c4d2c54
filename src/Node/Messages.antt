-- ===== src/Node/Messages.antt =====
-- Whole messages: what a node makes of one, valid or broken off by a panic.
use arcon.Common.{
  ℕ, ◌≡◌, refl, sym, subst, ◌∙◌, ◌⊎◌, inl, inr, Bool, true, false, none, some, List, [], ◌∷◌,
  Option, Res, ok, err, panic, out_of_fuel, arith, if◌then◌else◌, Option-cases,
}
use arcon.Data.{NodeId, ArconEvent, ArconEventWrapper, RawArconMessage}
use arcon.Node.Defs.{Operator, TimerBackend, Node, Config, M, contains, carry_on}
use arcon.Node.Events.{handle_death, handle_event, handle_events, for_each, drain, drain_levels}
use arcon.Node.Invariant.{AllPresent, AllGood, AllAligned, Rising, IsValid}
use arcon.Node.Validity.{
  Fine, Returned, Returned-same, handle_element-Returned, handle_watermark-Fine,
}
use arcon.Node.Epochs.{Drains, Ready, handle_epoch-Fine}

-- A watermark or a marker: what may need the metrics.
abbrev pub is_loud : {A : Type 0} → ArconEvent A → Bool
is_loud (ArconEvent.element e) = false
is_loud (ArconEvent.watermark w) = true
is_loud (ArconEvent.epoch e) = true
is_loud (ArconEvent.death msg) = false

abbrev pub is_loud_option : {A : Type 0} → Option (ArconEvent A) → Bool
is_loud_option none = false
is_loud_option (some e) = is_loud e

abbrev pub loud_events : {A : Type 0} → List (ArconEventWrapper A) → Bool
loud_events [] = false
loud_events (e ∷ es) = if is_loud_option e.inner then true else loud_events es

-- Whether there is a watermark or a marker in any of the messages.
abbrev pub loud : {A : Type 0} → List (RawArconMessage A) → Bool
loud [] = false
loud (m ∷ ms) = if loud_events m.events then true else loud ms

module _ {IN OUT TS S T : Type 0} (op : Operator IN OUT TS S T) (timer : TimerBackend TS S T)
    (cfg : Config) (base : List ℕ) (dir : cfg.checkpoint_dir ≡ some base) where
  Ready-Returned :
      (P : Type 0) (d : List (RawArconMessage IN) → M IN OUT S T (Unit {0})) (n : Node IN OUT S T)
      (r : Res (Unit {0}) × Node IN OUT S T)
      → Returned op timer cfg n r
      → Ready op timer cfg P d n
      → Ready op timer cfg P d r.1
  Ready-Returned P d n r f h = elim f.buffer [
    | inr none_left ↦ inl none_left
    | inl same ↦ elim h [
      | inl e ↦ inl (same ∙ e)
      | inr k ↦ inr (subst (Drains op timer cfg P d) (sym same) k)
    ]
  ]

  Returned-trans :
      (n m : Node IN OUT S T) (r : Res (Unit {0}) × Node IN OUT S T)
      → (m.state.message_buffer ≡ n.state.message_buffer) ⊎ (m.state.message_buffer ≡ [])
      → Returned op timer cfg m r
      → Returned op timer cfg n r
  Returned-trans n m r k f = record {
    returns = f.returns;
    valid = f.valid;
    buffer = elim f.buffer [
      | inr none_left ↦ inr none_left
      | inl same ↦ elim k [ inl e ↦ inl (same ∙ e) | inr e ↦ inr (same ∙ e) ]
    ];
  }

  handle_death-Returned :
      (msg : List ℕ) (n : Node IN OUT S T)
      → IsValid cfg n
      → Returned op timer cfg n (handle_death op timer cfg msg n)
  unfolding handle_death
  handle_death-Returned msg n v = record {
    returns = refl;
    valid = record { sound = v.sound; waiting = v.waiting; taken = v.taken; rising = v.rising };
    buffer = inl refl;
  }

  -- Two calls, one after the other.
  then-Fine :
      (P : Type 0) (n : Node IN OUT S T) (r : Res (Unit {0}) × Node IN OUT S T)
      (k : M IN OUT S T (Unit {0}))
      → Fine op timer cfg P n r
      → (Returned op timer cfg n r → Fine op timer cfg P r.1 (k r.1))
      → Fine op timer cfg P n (carry_on r (λ _. k))
  then-Fine P n (ok u, m) k (inl f) g = elim (g f) [
    | inl f' ↦ inl (Returned-trans n m (k m) f.buffer f')
    | inr b ↦ inr b
  ]
  then-Fine P n (err e, m) k (inl f) g = absurd (ground (arith, f.returns))
  then-Fine P n (panic, m) k (inl f) g = absurd (ground (arith, f.returns))
  then-Fine P n (out_of_fuel, m) k (inl f) g = absurd (ground (arith, f.returns))
  then-Fine P n (ok u, m) k (inr b) g = absurd (ground (arith, b.panics))
  then-Fine P n (err e, m) k (inr b) g = absurd (ground (arith, b.panics))
  then-Fine P n (panic, m) k (inr b) g =
      inr (record { panics = refl; why = b.why; taken = b.taken; last = b.last; rising = b.rising })
  then-Fine P n (out_of_fuel, m) k (inr b) g = absurd (ground (arith, b.panics))

  module _ (P : Type 0) (held : Bool)
      (d : Bool → List (RawArconMessage IN) → M IN OUT S T (Unit {0})) (sender : NodeId)
      (c : contains sender cfg.in_channels ≡ true) where
    handle_event-Fine :
        (e : ArconEvent IN) (n : Node IN OUT S T)
        → (held ≡ true → is_loud e ≡ true → P)
        → IsValid cfg n
        → Ready op timer cfg P (d true) n
        → Fine op timer cfg P n (handle_event op timer cfg held d sender e n)
    unfolding handle_event
    handle_event-Fine (ArconEvent.element e) n why v h =
        inl (handle_element-Returned op timer cfg sender e n v c)
    handle_event-Fine (ArconEvent.watermark w) n why v h =
        handle_watermark-Fine op timer cfg P held sender w n (λ t. why t refl) v c
    handle_event-Fine (ArconEvent.epoch e) n why v h =
        handle_epoch-Fine op timer cfg P held d base sender e n dir v c (λ t. why t refl) h
    handle_event-Fine (ArconEvent.death msg) n why v h = inl (handle_death-Returned msg n v)

    handle_events-Fine :
        (es : List (ArconEventWrapper IN)) (n : Node IN OUT S T)
        → (held ≡ true → loud_events es ≡ true → P)
        → AllPresent es
        → IsValid cfg n
        → Ready op timer cfg P (d true) n
        → Fine op timer cfg P n (handle_events op timer cfg held d sender es n)
    unfolding handle_events
    handle_events-Fine [] n why p v h = inl (Returned-same op timer cfg n v)
    handle_events-Fine (e ∷ es) n why p v h = elim (Option-cases e.inner) [
      | inl missing ↦ absurd (ground (arith, p.0))
      | inr (event, found) ↦ rw found (
          then-Fine P n (handle_event op timer cfg held d sender event n)
            (handle_events op timer cfg held d sender es)
            (handle_event-Fine event n (λ t l. why t (rw found (rw l refl))) v h)
            (λ f.
              handle_events-Fine es _ (λ t l. why t (ground (arith, l))) p.1 f.valid
                (Ready-Returned P (d true) n _ f h)))
    ]

  -- The messages of a buffer, with nothing left to drain below them.
  pub drain-Fine :
      (P : Type 0) (held : Bool) (ms : List (RawArconMessage IN)) (n : Node IN OUT S T)
      → (held ≡ true → loud ms ≡ true → P)
      → AllGood cfg ms
      → IsValid cfg n
      → n.state.message_buffer ≡ []
      → Fine op timer cfg P n (
          for_each op timer cfg
            (λ m. handle_events op timer cfg held (drain op timer cfg 0) m.sender m.events)
            ms
            n)
  unfolding for_each
  drain-Fine P held [] n why g v e = inl (Returned-same op timer cfg n v)
  drain-Fine P held (m ∷ ms) n why g v e =
      then-Fine P n (handle_events op timer cfg held (drain op timer cfg 0) m.sender m.events n) _
        (handle_events-Fine P held (drain op timer cfg 0) m.sender g.0.0 m.events n
          (λ t l. why t (rw l refl)) g.0.1 v (inl e))
        (λ f.
          drain-Fine P held ms _ (λ t l. why t (ground (arith, l))) g.1 f.valid
            (elim f.buffer [ inl same ↦ same ∙ e | inr none_left ↦ none_left ]))

  pub drain-Drains :
      (P : Type 0) (held : Bool) (ms : List (RawArconMessage IN))
      → (held ≡ true → loud ms ≡ true → P)
      → AllGood cfg ms
      → Drains op timer cfg P (drain op timer cfg drain_levels held) ms
  unfolding drain
  drain-Drains P held ms why g n v e = drain-Fine P held ms n why g v e

  -- What a message leaves behind: a valid node, or a panic, of which there are two things to say. The
  -- buffer held a watermark or a marker, and the checkpoints taken by then are aligned, with rising epochs.
  pub record Panicked (n : Node IN OUT S T) (r : Res (Unit {0}) × Node IN OUT S T) : Type 0 where
    pub panics : r.0 ≡ panic
    pub busy : loud n.state.message_buffer ≡ true
    pub taken : AllAligned cfg r.1.checkpoints
    pub last : ℕ
    pub rising : Rising r.1.checkpoints last
