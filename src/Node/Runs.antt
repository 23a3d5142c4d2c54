-- ===== src/Node/Runs.antt =====
-- A node from its creation or its restoration on, over any sequence of messages.
use arcon.Common.{
  ℕ, ◌<◌, ◌≡◌, refl, ap, ◌++◌, ◌⊎◌, false, inl, inr, true, some, List, [], ◌∷◌, Res, ok, arith,
  length, ℕ_discrete, Bool-cases,
}
use arcon.Common.Assoc.{get, insert, is_some, get-insert_self}
use arcon.Data.{NodeId, RawArconMessage}
use arcon.Node.Defs.{
  Operator, TimerBackend, NodeState, Checkpoint, Node, Config, M, set_state, modify, done, ◌>>◌,
}
use arcon.Node.Events.{
  receive_local, for_each, on_start, after_state_save, handle_events, drain, drain_levels,
}
use arcon.Node.Init.{init_watermarks, or_zero, init_state, empty_state, new}
use arcon.Node.Lowest.{Watermarks, IsLowest, AllGe, Attained, Attained-insert_self}
use arcon.Node.Invariant.{AllKnown, AllPresent, IsSound, IsAligned, IsValid, init_watermarks-known}
use arcon.Node.Checkpoints.{IsOpen}
use arcon.Node.Epochs.{unblocked, unblocked-IsValid}
use arcon.Node.Messages.{drain-Fine, Panicked}

-- No event of any message is missing; the senders may be any.
abbrev pub AllWhole : {IN : Type 0} → List (RawArconMessage IN) → Type 0
AllWhole [] = Unit {0}
AllWhole (m ∷ ms) = AllPresent m.events × AllWhole ms

AllGe-zero : (m : Watermarks) → AllGe 0 m
AllGe-zero [] = tt
AllGe-zero ((c, v) ∷ m) = (omega arith, AllGe-zero m)

Attained-init_watermarks :
    (cs : List NodeId) (m : Watermarks) → Attained 0 m → Attained 0 (init_watermarks cs m)
unfolding init_watermarks
Attained-init_watermarks [] m a = a
Attained-init_watermarks (c ∷ cs) m a = elim (Bool-cases (is_some (get ℕ_discrete c m))) [
  | inl e ↦ rw e (Attained-init_watermarks cs m a)
  | inr e ↦ rw e (Attained-init_watermarks cs _ (Attained-insert_self 0 c m))
]

IsLowest-init_watermarks : (cs : List NodeId) → 0 < length cs → IsLowest 0 (init_watermarks cs [])
unfolding init_watermarks insert get
IsLowest-init_watermarks [] h = absurd (omega arith)
IsLowest-init_watermarks (c ∷ cs) h =
    (AllGe-zero _, Attained-init_watermarks cs ((c, 0) ∷ []) (inl refl))

AllKnown-init_watermarks : (cs : List NodeId) (m : Watermarks) → AllKnown cs (init_watermarks cs m)
unfolding init_watermarks
AllKnown-init_watermarks [] m = tt
AllKnown-init_watermarks (c ∷ cs) m = elim (Bool-cases (is_some (get ℕ_discrete c m))) [
  | inl e ↦ rw e ((init_watermarks-known cs (c ∷ []) m (e, tt)).0, AllKnown-init_watermarks cs m)
  | inr e ↦ rw e (
    (init_watermarks-known cs (c ∷ []) (insert ℕ_discrete c 0 m)
        (ground (arith, get-insert_self ℕ_discrete c 0 m), tt)).0,
    AllKnown-init_watermarks cs (insert ℕ_discrete c 0 m),
  )
]

-- On a restored backend every channel has its watermark already.
init_watermarks_known_lem :
    (cs : List NodeId) (m : Watermarks) → AllKnown cs m → init_watermarks cs m ≡ m
unfolding init_watermarks
init_watermarks_known_lem [] m k = refl
init_watermarks_known_lem (c ∷ cs) m k = rw k.0 (init_watermarks_known_lem cs m k.1)

-- A new node with an input channel, on an empty backend, is valid.
pub new-IsValid :
    {IN OUT S T : Type 0} (cfg : Config) (num_channels : ℕ) (session : S) (t : T)
    → 0 < length cfg.in_channels
    → IsValid cfg (new {IN = IN} {OUT = OUT} cfg num_channels empty_state session t)
unfolding new init_state empty_state
new-IsValid cfg num_channels session t h = record {
  sound = record {
    mark = 0;
    lined_up = (refl, IsLowest-init_watermarks cfg.in_channels h);
    known = AllKnown-init_watermarks cfg.in_channels [];
    now = 0;
    epoch_set = refl;
    distinct = tt;
    inputs = tt;
    buffered = tt;
  };
  waiting = h;
  taken = tt;
  rising = tt;
}

module _ {IN OUT TS S T : Type 0} (op : Operator IN OUT TS S T) (timer : TimerBackend TS S T)
    (cfg : Config) where
  -- What a node makes of a sequence of messages.
  abbrev pub receive_all : List (RawArconMessage IN) → M IN OUT S T (Unit {0})
  receive_all ms = for_each op timer cfg (receive_local op timer cfg) ms

  restored-IsOpen :
      (s : NodeState IN) (num_channels : ℕ) (session : S) (t : T)
      → 0 < length cfg.in_channels
      → IsSound cfg s
      → IsOpen op timer cfg (new cfg num_channels s session t)
  unfolding new init_state
  restored-IsOpen s num_channels session t h v =
      let same = init_watermarks_known_lem cfg.in_channels s.watermarks v.known in
      record {
        sound = record {
          mark = v.mark;
          lined_up = (ap or_zero v.lined_up.0, rw same v.lined_up.1);
          known = rw same v.known;
          now = v.now;
          epoch_set = ap or_zero v.epoch_set;
          distinct = v.distinct;
          inputs = v.inputs;
          buffered = v.buffered;
        };
        inputs = h;
        taken = tt;
        rising = tt;
      }

  module _ (base : List ℕ) (dir : cfg.checkpoint_dir ≡ some base) where
    -- The result of a message, as `handle_message-IsValid` gives it.
    abbrev Settled : Node IN OUT S T → Res (Unit {0}) × Node IN OUT S T → Type 0
    Settled n r = ((r.0 ≡ ok tt) × IsValid cfg r.1) ⊎ Panicked op timer cfg base dir n r

    -- A run that a panic has broken off: at which message, and on which node.
    pub record Crashed (ms : List (RawArconMessage IN)) (n : Node IN OUT S T)
        (r : Res (Unit {0}) × Node IN OUT S T) : Type 0 where
      pub before : List (RawArconMessage IN)
      pub message : RawArconMessage IN
      pub later : List (RawArconMessage IN)
      pub cut : ms ≡ before ++ message ∷ later
      pub mid : Node IN OUT S T
      pub reached : receive_all before n ≡ (ok tt, mid)
      pub valid : IsValid cfg mid
      pub panicked : Panicked op timer cfg base dir mid r

    -- The messages of a buffer, one after the other, as messages of channels that are not blocked.
    abbrev pub work_through : List (RawArconMessage IN) → M IN OUT S T (Unit {0})
    work_through ms =
        for_each op timer cfg
          (λ m. handle_events op timer cfg false (drain op timer cfg 0) m.sender m.events) ms

    after_state_save_lem :
        (n : Node IN OUT S T)
        → after_state_save op timer cfg (drain op timer cfg drain_levels false) n
          ≡ work_through n.state.message_buffer (unblocked op timer cfg [] n)
    unfolding after_state_save drain for_each
    after_state_save_lem n = by_buffer n.state.message_buffer
      where
        by_buffer :
            (b : List (RawArconMessage IN))
            → (elim b as (λ _. M IN OUT S T (Unit {0})) [
              | [] ↦ done
              | m ∷ ms ↦
                  (modify (set_state (λ s. record s { message_buffer = [] }))
                    >> drain op timer cfg drain_levels false (m ∷ ms))
            ])
                (unblocked op timer cfg b n)
              ≡ work_through b (unblocked op timer cfg [] n)
        by_buffer [] = refl
        by_buffer (m ∷ ms) = refl

    -- A node that is created on a checkpoint which an earlier run of it has taken works through the
    -- messages that were buffered then when it starts: it does what it would do with them, one after
    -- the other, on the checkpoint with its channels unblocked. That ends without an error or a panic, with
    -- nothing in the buffer, and the node is valid. It has an input channel, and a directory for
    -- checkpoints is configured.
    pub on_start-IsValid :
        (c : Checkpoint IN S) (num_channels : ℕ) (session : S) (t : T)
        → 0 < length cfg.in_channels
        → IsAligned cfg c
        → let n = new {OUT = OUT} cfg num_channels c.node_state session t in
          let r = on_start op timer cfg true n in
          (r ≡ work_through c.node_state.message_buffer (unblocked op timer cfg [] n))
          × (r.0 ≡ ok tt)
          × IsValid cfg r.1
          × (r.1.state.message_buffer ≡ [])
    unfolding on_start new
    on_start-IsValid c num_channels session t h a =
        let n : Node IN OUT S T = new cfg num_channels c.node_state session t in
        let v = restored-IsOpen c.node_state num_channels session t h a.sound in
        let same = after_state_save_lem n in
        elim (drain-Fine op timer cfg base dir ⊥ false n.state.message_buffer
          (unblocked op timer cfg [] n) (λ e l. absurd (ground (arith, e))) v.sound.buffered
          (unblocked-IsValid op timer cfg [] n v tt) refl) [
            | inl f ↦ rw same (refl, f.returns, f.valid, elim f.buffer [ inl e ↦ e | inr e ↦ e ])
            | inr b ↦ absurd b.why
          ]
