-- ===== src/Node/Progress.antt =====
-- The epoch markers, liveness: once a marker of the next epoch has come in on every input channel, the
-- checkpoint of that epoch has been taken and the channels are open again.
use arcon.Common.{
  ℕ, suc, ◌+◌, ◌<◌, ◌≡◌, refl, ◌≢◌, true, false, none, some, List, [], ◌∷◌, ◌++◌, ok, arith, length,
  map, leb, ◌==◌, ℕ_discrete,
}
use arcon.Common.Assoc.{get, insert, length-insert}
use arcon.Data.{NodeId, Epoch, ArconEvent, RawArconMessage, wrap}
use arcon.Node.Defs.{Operator, TimerBackend, Node, Checkpoint, Config, contains, set_state}
use arcon.Node.Events.{
  record_incoming_events, after_state_save, handle_epoch, handle_event, handle_events,
  handle_message, receive_local, for_each,
}
use arcon.Node.Channels.{Blocked}
use arcon.Node.Checkpoints.{advanced, checkpoint_of, committed, commit_epoch_lem}
use arcon.Node.Runs.{receive_all}

-- A message with a marker and nothing else.
abbrev pub marker : {IN : Type 0} → Epoch → NodeId → RawArconMessage IN
marker e c = record { events = wrap (ArconEvent.epoch e) ∷ []; sender = c }

-- Input channels that are not blocked, each of them once.
abbrev pub Pending : List NodeId → List NodeId → Blocked → Type 0
Pending inputs [] m = Unit {0}
Pending inputs (c ∷ cs) m =
    (contains c inputs ≡ true)
    × (get ℕ_discrete c m ≡ none)
    × Pending inputs cs (insert ℕ_discrete c tt m)

module _ {IN OUT TS S T : Type 0} (op : Operator IN OUT TS S T) (timer : TimerBackend TS S T)
    (cfg : Config) where
  -- The node when a marker has come in on the channel `c`.
  abbrev arrived : NodeId → Node IN OUT S T → Node IN OUT S T
  arrived c n =
      set_state (λ s. record s { blocked_channels = insert ℕ_discrete c tt s.blocked_channels })
        (record_incoming_events 1 n)

  -- The node after the checkpoint, with nothing in its buffer.
  abbrev reopened : List ℕ → Epoch → Node IN OUT S T → Node IN OUT S T
  reopened base e n =
      set_state (λ s. record s { blocked_channels = [] }) (committed op timer cfg base e n)

  module _ (base : List ℕ) (dir : cfg.checkpoint_dir ≡ some base) (e now : Epoch) (c : NodeId)
      (n : Node IN OUT S T) (set : n.state.current_epoch ≡ some now) (later : now < e)
      (input : contains c cfg.in_channels ≡ true)
      (unblocked : get ℕ_discrete c n.state.blocked_channels ≡ none) where
    receive_more :
        suc (length n.state.blocked_channels) ≢ length cfg.in_channels
        → receive_local op timer cfg (marker e c) n ≡ (ok tt, arrived c n)
    unfolding receive_local handle_message handle_events handle_event handle_epoch
    receive_more h =
        let l = length-insert ℕ_discrete c tt n.state.blocked_channels unblocked in
        let new : leb e now ≡ false = ground arith in
        let q : (length (insert ℕ_discrete c tt n.state.blocked_channels) == length cfg.in_channels)
            ≡ false =
          ground arith in
        rw input (rw unblocked (rw set (rw new (rw q refl))))

    receive_last :
        suc (length n.state.blocked_channels) ≡ length cfg.in_channels
        → n.state.message_buffer ≡ []
        → receive_local op timer cfg (marker e c) n ≡ (ok tt, reopened base e (arrived c n))
    unfolding receive_local handle_message handle_events handle_event handle_epoch after_state_save
    receive_last h empty =
        let l = length-insert ℕ_discrete c tt n.state.blocked_channels unblocked in
        let new : leb e now ≡ false = ground arith in
        let q : (length (insert ℕ_discrete c tt n.state.blocked_channels) == length cfg.in_channels)
            ≡ true =
          ground arith in
        rw input (
          rw unblocked (
            rw set (
              rw new (
                rw q (
                  rw
                    (commit_epoch_lem op timer cfg base e
                      (set_state (λ s. record s { current_epoch = some now }) (arrived c n)) dir)
                    (rw empty refl))))))

  -- What the last marker of the epoch `e` leaves behind.
  pub record Checkpointed (base : List ℕ) (e : Epoch) (n m : Node IN OUT S T) : Type 0 where
    pub last : Checkpoint IN S
    pub added : m.checkpoints ≡ n.checkpoints ++ last ∷ []
    pub stamped : last.epoch ≡ e
    pub placed : last.base_dir ≡ base
    pub at : m.state.current_epoch ≡ some e
    pub open_again : m.state.blocked_channels ≡ []
    pub before : List (ArconEvent OUT)
    pub forwarded : m.world.sent ≡ before ++ ArconEvent.epoch e ∷ []

  -- Once a marker of an epoch beyond the current one has come in on every input channel that was not
  -- blocked, in any order, the node has taken just one more checkpoint, the one of that epoch, has forwarded the
  -- marker and has opened its channels again. Nothing is in its buffer, and a directory for
  -- checkpoints is configured.
  pub receive_all-Checkpointed :
      (base : List ℕ) (cs : List NodeId) (e now : Epoch) (n : Node IN OUT S T)
      → cfg.checkpoint_dir ≡ some base
      → n.state.current_epoch ≡ some now
      → now < e
      → n.state.message_buffer ≡ []
      → Pending cfg.in_channels cs n.state.blocked_channels
      → length n.state.blocked_channels + length cs ≡ length cfg.in_channels
      → length n.state.blocked_channels < length cfg.in_channels
      → ((receive_all op timer cfg (map (marker e) cs) n).0 ≡ ok tt)
        × Checkpointed base e n (receive_all op timer cfg (map (marker e) cs) n).1
  unfolding for_each
  receive_all-Checkpointed base [] e now n dir set later empty pending total waiting =
      absurd (omega arith)
  receive_all-Checkpointed base (c ∷ []) e now n dir set later empty pending total waiting =
      rw (receive_last base dir e now c n set later pending.0 pending.1 (omega arith) empty) (
        refl,
        record {
          last = checkpoint_of op timer cfg base e (advanced op timer cfg e (arrived c n));
          added = refl;
          stamped = refl;
          placed = refl;
          at = refl;
          open_again = refl;
          before = (advanced op timer cfg e (arrived c n)).world.sent;
          forwarded = refl;
        },
      )
  receive_all-Checkpointed base (c ∷ d ∷ ds) e now n dir set later empty pending total waiting =
      let l = length-insert ℕ_discrete c tt n.state.blocked_channels pending.1 in
      let ih =
        receive_all-Checkpointed base (d ∷ ds) e now (arrived c n) dir set later empty pending.2
          (omega arith) (omega arith) in
      rw (receive_more base dir e now c n set later pending.0 pending.1 (omega arith)) (
        ih.0,
        record {
          last = ih.1.last;
          added = ih.1.added;
          stamped = ih.1.stamped;
          placed = ih.1.placed;
          at = ih.1.at;
          open_again = ih.1.open_again;
          before = ih.1.before;
          forwarded = ih.1.forwarded;
        },
      )
