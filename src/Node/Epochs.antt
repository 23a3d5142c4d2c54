-- ===== src/Node/Epochs.antt =====
-- The epoch markers: when the last input channel is blocked, the node takes an aligned checkpoint,
-- unblocks its channels and works through the messages that it has buffered.
use arcon.Common.{
  ℕ, ◌<◌, ◌≡◌, refl, sym, subst, ◌⊎◌, inl, inr, Bool, true, Option, some, List, [], ◌∷◌, Res, Error,
  ok_or, arith, length, leb, ◌==◌, if◌then◌else◌, ℕ_discrete, Bool-cases,
}
use arcon.Common.Assoc.{insert, insert-IsMap}
use arcon.Data.{NodeId, Epoch, RawArconMessage}
use arcon.Node.Defs.{
  Operator, TimerBackend, Node, Config, M, contains, carry_on, lift, done, modify, ◌>>◌, set_state,
}
use arcon.Node.Events.{commit_epoch, after_state_save, handle_epoch}
use arcon.Node.Channels.{length-KeysIn, KeysIn-insert}
use arcon.Node.Invariant.{AllGood, IsSound, IsValid}
use arcon.Node.Checkpoints.{
  committed, commit_epoch_lem, commit_epoch_held, IsOpen, committed-IsOpen,
}
use arcon.Node.Validity.{Fine, Returned-same}

module _ {IN OUT TS S T : Type 0} (op : Operator IN OUT TS S T) (timer : TimerBackend TS S T)
    (cfg : Config) where
  -- The node with its channels unblocked, and with this buffer.
  abbrev pub unblocked : List (RawArconMessage IN) → Node IN OUT S T → Node IN OUT S T
  unblocked b n = set_state (λ s. record s { blocked_channels = []; message_buffer = b }) n

  pub unblocked-IsValid :
      (b : List (RawArconMessage IN)) (n : Node IN OUT S T)
      → IsOpen op timer cfg n
      → AllGood cfg b
      → IsValid cfg (unblocked b n)
  unblocked-IsValid b n v g = record {
    sound = record {
      mark = v.sound.mark;
      lined_up = v.sound.lined_up;
      known = v.sound.known;
      now = v.sound.now;
      epoch_set = v.sound.epoch_set;
      distinct = tt;
      inputs = tt;
      buffered = g;
    };
    waiting = v.inputs;
    taken = v.taken;
    rising = v.rising;
  }

  module _ (P : Type 0) (drain : List (RawArconMessage IN) → M IN OUT S T (Unit {0})) where
    -- The messages of a buffer can be worked through, on any valid node whose buffer is empty.
    abbrev pub Drains : List (RawArconMessage IN) → Type 0
    Drains b =
        (n : Node IN OUT S T)
        → IsValid cfg n
        → n.state.message_buffer ≡ []
        → Fine op timer cfg P n (drain b n)

    -- The buffer is empty, or its messages can be worked through.
    abbrev pub Ready : Node IN OUT S T → Type 0
    Ready n = (n.state.message_buffer ≡ []) ⊎ Drains n.state.message_buffer

    drained-Fine :
        (n : Node IN OUT S T) (r : Res (Unit {0}) × Node IN OUT S T)
        → Fine op timer cfg P (unblocked [] n) r
        → Fine op timer cfg P n r
    drained-Fine n r (inl f) = inl (record {
      returns = f.returns;
      valid = f.valid;
      buffer = elim f.buffer [ inl e ↦ inr e | inr e ↦ inr e ];
    })
    drained-Fine n r (inr f) = inr f

    -- What is done with a buffer, once it has been read.
    after_unblocking : List (RawArconMessage IN) → M IN OUT S T (Unit {0})
    after_unblocking b = elim b [
      | [] ↦ done
      | m ∷ ms ↦ modify (set_state (λ s. record s { message_buffer = [] })) >> drain (m ∷ ms)
    ]

    after_unblocking-Fine :
        (b : List (RawArconMessage IN)) (n : Node IN OUT S T)
        → IsOpen op timer cfg n
        → (b ≡ []) ⊎ Drains b
        → Fine op timer cfg P n (after_unblocking b (unblocked b n))
    unfolding after_unblocking
    after_unblocking-Fine [] n v d =
        inl (record { returns = refl; valid = unblocked-IsValid [] n v tt; buffer = inr refl })
    after_unblocking-Fine (m ∷ ms) n v (inl e) = absurd (ground arith)
    after_unblocking-Fine (m ∷ ms) n v (inr d) =
        drained-Fine n _ (d (unblocked [] n) (unblocked-IsValid [] n v tt) refl)

    pub after_state_save-Fine :
        (n : Node IN OUT S T)
        → IsOpen op timer cfg n
        → Ready n
        → Fine op timer cfg P n (after_state_save op timer cfg drain n)
    unfolding after_state_save after_unblocking
    after_state_save-Fine n v d = after_unblocking-Fine n.state.message_buffer n v d

  -- The node once the sender of a marker is blocked.
  abbrev blocked : NodeId → Node IN OUT S T → Node IN OUT S T
  blocked sender n =
      set_state
        (λ s. record s { blocked_channels = insert ℕ_discrete sender tt s.blocked_channels }) n

  blocked-IsSound :
      (sender : NodeId) (n : Node IN OUT S T)
      → IsSound cfg n.state
      → contains sender cfg.in_channels ≡ true
      → IsSound cfg (blocked sender n).state
  blocked-IsSound sender n v c = record {
    mark = v.mark;
    lined_up = v.lined_up;
    known = v.known;
    now = v.now;
    epoch_set = v.epoch_set;
    distinct = insert-IsMap ℕ_discrete sender tt n.state.blocked_channels v.distinct;
    inputs = KeysIn-insert sender cfg.in_channels n.state.blocked_channels c v.inputs;
    buffered = v.buffered;
  }

  module _ (P : Type 0) (held : Bool)
      (drain : Bool → List (RawArconMessage IN) → M IN OUT S T (Unit {0})) where
    complete-Fine :
        (base : List ℕ) (e : Epoch) (n : Node IN OUT S T)
        → cfg.checkpoint_dir ≡ some base
        → (held ≡ true → P)
        → IsOpen op timer cfg (committed op timer cfg base e n)
        → Ready P (drain true) n
        → Fine op timer cfg P n
            ((commit_epoch op timer cfg held e >> after_state_save op timer cfg (drain true)) n)
    complete-Fine base e n dir why o d = elim (Bool-cases held) [
      | inl taken ↦ rw taken (
          rw (commit_epoch_held op timer cfg base e n dir) (
            inr (record {
              panics = refl;
              why = why taken;
              taken = o.taken;
              last = o.sound.now;
              rising = o.rising;
            })))
      | inr free ↦ rw free (
          rw (commit_epoch_lem op timer cfg base e n dir)
            (elim (after_state_save-Fine P (drain true) (committed op timer cfg base e n) o d) [
              | inl f ↦ inl (record { returns = f.returns; valid = f.valid; buffer = f.buffer })
              | inr f ↦ inr f
            ]))
    ]

    -- What is done with a marker of a later epoch, once its sender is blocked.
    abbrev marked : Epoch → M IN OUT S T (Unit {0})
    marked e n =
        (if length n.state.blocked_channels == length cfg.in_channels
            then commit_epoch op timer cfg held e >> after_state_save op timer cfg (drain true)
            else done)
          n

    marked-Fine :
        (base : List ℕ) (sender : NodeId) (e : Epoch) (n : Node IN OUT S T)
        → cfg.checkpoint_dir ≡ some base
        → (v : IsValid cfg n) → v.sound.now < e
        → contains sender cfg.in_channels ≡ true
        → (held ≡ true → P)
        → Ready P (drain true) n
        → Fine op timer cfg P n (marked e (blocked sender n))
    marked-Fine base sender e n dir v new c why d =
        let s = blocked-IsSound sender n v.sound c in
        let m = (blocked sender n).state.blocked_channels in
        elim (Bool-cases (length m == length cfg.in_channels)) [
          | inl full ↦
              rw full
                (elim (complete-Fine base e (blocked sender n) dir why
                  (committed-IsOpen op timer cfg base e v.sound.now (blocked sender n) s
                    (omega (arith, v.waiting)) v.taken v.rising new (ground arith))
                  d) [
                    | inl f ↦
                        inl (record { returns = f.returns; valid = f.valid; buffer = f.buffer })
                    | inr f ↦ inr f
                  ])
          | inr more ↦ rw more (
              inl (record {
                returns = refl;
                valid = record {
                  sound = record {
                    mark = s.mark;
                    lined_up = s.lined_up;
                    known = s.known;
                    now = v.sound.now;
                    epoch_set = v.sound.epoch_set;
                    distinct = s.distinct;
                    inputs = s.inputs;
                    buffered = s.buffered;
                  };
                  waiting = ground (arith, length-KeysIn cfg.in_channels m s.distinct s.inputs);
                  taken = v.taken;
                  rising = v.rising;
                };
                buffer = inl refl;
              }))
        ]

    pub handle_epoch-Fine :
        (base : List ℕ) (sender : NodeId) (e : Epoch) (n : Node IN OUT S T)
        → cfg.checkpoint_dir ≡ some base
        → IsValid cfg n
        → contains sender cfg.in_channels ≡ true
        → (held ≡ true → P)
        → Ready P (drain true) n
        → Fine op timer cfg P n (handle_epoch op timer cfg held drain sender e n)
    unfolding handle_epoch
    handle_epoch-Fine base sender e n dir v c why d =
        subst
          (λ (r : Option Epoch). Fine op timer cfg P n (
            carry_on (lift (ok_or r Error.uninitialized_epoch) n)
              (λ current. if leb e current then done else (λ n'. marked e (blocked sender n')))))
          (sym v.sound.epoch_set)
          (elim (Bool-cases (leb e v.sound.now)) [
            | inl old ↦ rw old (inl (Returned-same op timer cfg n v))
            | inr new ↦ rw new (marked-Fine base sender e n dir v (ground arith) c why d)
          ])
