-- ===== src/Node/Invariant.antt =====
-- What holds of a node between two messages.
use arcon.Common.{
  ◌≤◌, ◌<◌, ◌≡◌, true, some, List, [], ◌∷◌, ◌++◌, arith, length, ℕ_discrete, Option-cases,
  Bool-cases, inl, inr,
}
use arcon.Common.Assoc.{get, insert, IsMap, is_some, get-insert}
use arcon.Data.{NodeId, Watermark, Epoch, ArconEventWrapper, RawArconMessage}
use arcon.Node.Defs.{NodeState, Node, Checkpoint, Config, contains}
use arcon.Node.Init.{init_watermarks}
use arcon.Node.Lowest.{Watermarks}
use arcon.Node.Watermarks.{IsLinedUp}
use arcon.Node.Channels.{KeysIn, AllBlocked}

-- Every channel has a watermark.
abbrev pub AllKnown : List NodeId → Watermarks → Type 0
AllKnown [] m = Unit {0}
AllKnown (c ∷ cs) m = (is_some (get ℕ_discrete c m) ≡ true) × AllKnown cs m

pub AllKnown-insert :
    (cs : List NodeId) (c : NodeId) (w : Watermark) (m : Watermarks)
    → AllKnown cs m
    → AllKnown cs (insert ℕ_discrete c w m)
AllKnown-insert [] c w m k = tt
AllKnown-insert (d ∷ cs) c w m k =
    (ground (arith, get-insert ℕ_discrete c d w m), AllKnown-insert cs c w m k.1)

pub known_of_contains :
    (c : NodeId) (cs : List NodeId) (m : Watermarks)
    → AllKnown cs m
    → contains c cs ≡ true
    → (w : Watermark) × (get ℕ_discrete c m ≡ some w)
unfolding contains
known_of_contains c [] m k h = absurd (ground arith)
known_of_contains c (d ∷ ds) m k h = elim (Option-cases (get ℕ_discrete c m)) [
  | inl e ↦ absurd (ground (arith, known_of_contains c ds m k.1))
  | inr found ↦ found
]

-- A message as the senders make it: an input channel sends it, and no event is missing.
abbrev pub AllPresent : {IN : Type 0} → List (ArconEventWrapper IN) → Type 0
AllPresent [] = Unit {0}
AllPresent (e ∷ es) = (is_some e.inner ≡ true) × AllPresent es

abbrev pub IsGood : {IN : Type 0} → Config → RawArconMessage IN → Type 0
IsGood cfg m = (contains m.sender cfg.in_channels ≡ true) × AllPresent m.events

abbrev pub AllGood : {IN : Type 0} → Config → List (RawArconMessage IN) → Type 0
AllGood cfg [] = Unit {0}
AllGood cfg (m ∷ ms) = IsGood cfg m × AllGood cfg ms

pub AllGood-snoc :
    {IN : Type 0} (cfg : Config) (ms : List (RawArconMessage IN)) (m : RawArconMessage IN)
    → AllGood cfg ms
    → IsGood cfg m
    → AllGood cfg (ms ++ m ∷ [])
AllGood-snoc cfg [] m a g = (g, tt)
AllGood-snoc cfg (x ∷ ms) m a g = (a.0, AllGood-snoc cfg ms m a.1 g)

-- The persistent state: the watermark is the lowest of the channels, every channel has one, an
-- epoch is set, the blocked channels and the senders of buffered messages are input channels.
pub record IsSound {IN : Type 0} (cfg : Config) (s : NodeState IN) : Type 0 where
  pub mark : Watermark
  pub lined_up : IsLinedUp mark s
  pub known : AllKnown cfg.in_channels s.watermarks
  pub now : Epoch
  pub epoch_set : s.current_epoch ≡ some now
  pub distinct : IsMap ℕ_discrete s.blocked_channels
  pub inputs : KeysIn cfg.in_channels s.blocked_channels
  pub buffered : AllGood cfg s.message_buffer

-- A checkpoint: the state in it is sound and has every input channel blocked, and it is named
-- after the node and the epoch.
pub record IsAligned {IN S : Type 0} (cfg : Config) (c : Checkpoint IN S) : Type 0 where
  pub sound : IsSound cfg c.node_state
  pub all_blocked : AllBlocked cfg.in_channels c.node_state.blocked_channels
  pub stamped : c.node_state.current_epoch ≡ some c.epoch
  pub named : c.id ≡ cfg.id

abbrev pub AllAligned : {IN S : Type 0} → Config → List (Checkpoint IN S) → Type 0
AllAligned cfg [] = Unit {0}
AllAligned cfg (c ∷ cs) = IsAligned cfg c × AllAligned cfg cs

pub AllAligned-snoc :
    {IN S : Type 0} (cfg : Config) (cs : List (Checkpoint IN S)) (c : Checkpoint IN S)
    → AllAligned cfg cs
    → IsAligned cfg c
    → AllAligned cfg (cs ++ c ∷ [])
AllAligned-snoc cfg [] c a h = (h, tt)
AllAligned-snoc cfg (d ∷ cs) c a h = (a.0, AllAligned-snoc cfg cs c a.1 h)

-- The epochs of the checkpoints rise, up to a bound.
abbrev pub AllAbove : {IN S : Type 0} → Epoch → List (Checkpoint IN S) → Type 0
AllAbove e [] = Unit {0}
AllAbove e (c ∷ cs) = (e < c.epoch) × AllAbove e cs

abbrev pub Rising : {IN S : Type 0} → List (Checkpoint IN S) → Epoch → Type 0
Rising [] e = Unit {0}
Rising (c ∷ cs) e = (c.epoch ≤ e) × AllAbove c.epoch cs × Rising cs e

AllAbove-snoc :
    {IN S : Type 0} (e : Epoch) (cs : List (Checkpoint IN S)) (c : Checkpoint IN S)
    → AllAbove e cs
    → e < c.epoch
    → AllAbove e (cs ++ c ∷ [])
AllAbove-snoc e [] c a h = (h, tt)
AllAbove-snoc e (d ∷ cs) c a h = (a.0, AllAbove-snoc e cs c a.1 h)

pub Rising-snoc :
    {IN S : Type 0} (cs : List (Checkpoint IN S)) (e : Epoch) (c : Checkpoint IN S)
    → Rising cs e
    → e < c.epoch
    → Rising (cs ++ c ∷ []) c.epoch
Rising-snoc [] e c r h = (omega arith, tt, tt)
Rising-snoc (d ∷ cs) e c r h =
    (omega arith, AllAbove-snoc d.epoch cs c r.1 (omega arith), Rising-snoc cs e c r.2 h)

-- Between two messages not every input channel is blocked, every checkpoint that has been taken is
-- aligned, and their epochs rise up to the current one.
pub record IsValid {IN OUT S T : Type 0} (cfg : Config) (n : Node IN OUT S T) : Type 0 where
  pub sound : IsSound cfg n.state
  pub waiting : length n.state.blocked_channels < length cfg.in_channels
  pub taken : AllAligned cfg n.checkpoints
  pub rising : Rising n.checkpoints sound.now

pub init_watermarks-known :
    (cs ds : List NodeId) (m : Watermarks) → AllKnown ds m → AllKnown ds (init_watermarks cs m)
unfolding init_watermarks
init_watermarks-known [] ds m k = k
init_watermarks-known (c ∷ cs) ds m k = elim (Bool-cases (is_some (get ℕ_discrete c m))) [
  | inl e ↦ rw e (init_watermarks-known cs ds m k)
  | inr e ↦
      rw e (init_watermarks-known cs ds (insert ℕ_discrete c 0 m) (AllKnown-insert ds c 0 m k))
]
