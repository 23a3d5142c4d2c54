-- ===== src/Node/Checkpoints.antt =====
-- The checkpoint that a node takes when the last of its input channels is blocked.
use arcon.Common.{ℕ, ◌+◌, ◌<◌, ◌≡◌, refl, true, false, panic, some, List, [], ◌∷◌, ◌++◌, ok, length}
use arcon.Data.{Epoch, ArconEvent}
use arcon.Node.Defs.{
  Operator, TimerBackend, NodeState, Checkpoint, Node, Config, set_state, set_world, set_metrics,
  send,
}
use arcon.Node.Events.{save_state, commit_epoch}
use arcon.Node.Channels.{AllBlocked-of_full}
use arcon.Node.Invariant.{IsSound, AllAligned, AllAligned-snoc, Rising, Rising-snoc}

module _ {IN OUT TS S T : Type 0} (op : Operator IN OUT TS S T) (timer : TimerBackend TS S T)
    (cfg : Config) where
  -- The node once the epoch is complete: the state is saved and the marker goes on.
  abbrev pub advanced : Epoch → Node IN OUT S T → Node IN OUT S T
  advanced e n =
      let n1 = set_state (λ s. record s { current_epoch = some e }) n in
      let n2 = set_world (op.handle_epoch e) n1 in
      set_world
        (λ w.
          let r = timer.handle_epoch e (w.session, w.timer) in
          record w { session = r.0; timer = r.1 })
        n2

  abbrev pub checkpoint_of : List ℕ → Epoch → Node IN OUT S T → Checkpoint IN S
  checkpoint_of base e n = record {
    base_dir = base;
    id = cfg.id;
    epoch = e;
    node_state = n.state;
    session = n.world.session;
  }

  abbrev pub committed : List ℕ → Epoch → Node IN OUT S T → Node IN OUT S T
  committed base e n =
      let n1 = advanced e n in
      let n2 = record n1 { checkpoints = n1.checkpoints ++ checkpoint_of base e n1 ∷ [] } in
      let n3 = send (ArconEvent.epoch e) (set_metrics (λ m. record m { epoch = e }) n2) in
      set_metrics (λ m. record m { epoch_counter = m.epoch_counter + 1 }) n3

  pub commit_epoch_lem :
      (base : List ℕ) (e : Epoch) (n : Node IN OUT S T)
      → cfg.checkpoint_dir ≡ some base
      → commit_epoch op timer cfg false e n ≡ (ok tt, committed base e n)
  unfolding commit_epoch save_state
  commit_epoch_lem base e n dir = rw dir refl

  -- Where an outer call holds the metrics, the checkpoint is taken before the panic.
  abbrev pub stopped : List ℕ → Epoch → Node IN OUT S T → Node IN OUT S T
  stopped base e n =
      let n1 = advanced e n in
      record n1 { checkpoints = n1.checkpoints ++ checkpoint_of base e n1 ∷ [] }

  pub commit_epoch_held :
      (base : List ℕ) (e : Epoch) (n : Node IN OUT S T)
      → cfg.checkpoint_dir ≡ some base
      → commit_epoch op timer cfg true e n ≡ (panic, stopped base e n)
  unfolding commit_epoch save_state
  commit_epoch_held base e n dir = rw dir refl

  -- A node that is valid but for its blocked channels, of which there may be any number.
  pub record IsOpen (n : Node IN OUT S T) : Type 0 where
    pub sound : IsSound cfg n.state
    pub inputs : 0 < length cfg.in_channels
    pub taken : AllAligned cfg n.checkpoints
    pub rising : Rising n.checkpoints sound.now

  restamped-IsSound :
      (e : Epoch) (s : NodeState IN)
      → IsSound cfg s
      → IsSound cfg (record s { current_epoch = some e })
  restamped-IsSound e s v = record {
    mark = v.mark;
    lined_up = v.lined_up;
    known = v.known;
    now = e;
    epoch_set = refl;
    distinct = v.distinct;
    inputs = v.inputs;
    buffered = v.buffered;
  }

  -- When every input channel is blocked the checkpoint is aligned, and its epoch is above all
  -- those before.
  pub committed-IsOpen :
      (base : List ℕ) (e now : Epoch) (n : Node IN OUT S T)
      → IsSound cfg n.state
      → 0 < length cfg.in_channels
      → AllAligned cfg n.checkpoints
      → Rising n.checkpoints now
      → now < e
      → length n.state.blocked_channels ≡ length cfg.in_channels
      → IsOpen (committed base e n)
  committed-IsOpen base e now n v some_input taken rising new full =
      let c : Checkpoint IN S = checkpoint_of base e (advanced e n) in
      let s : IsSound cfg c.node_state = restamped-IsSound e n.state v in
      record {
        sound = record {
          mark = s.mark;
          lined_up = s.lined_up;
          known = s.known;
          now = e;
          epoch_set = refl;
          distinct = s.distinct;
          inputs = s.inputs;
          buffered = s.buffered;
        };
        inputs = some_input;
        taken = AllAligned-snoc cfg n.checkpoints c taken (record {
          sound = s;
          all_blocked =
              AllBlocked-of_full cfg.in_channels n.state.blocked_channels v.distinct v.inputs full;
          stamped = refl;
          named = refl;
        });
        rising = Rising-snoc n.checkpoints now c rising new;
      }
