-- ===== src/Node/Defs.antt =====
-- execution-plane/arcon/src/stream/node/mod.rs: the state of a node and its environment.
use arcon.Common.{
  ℕ, Bool, true, false, Option, List, [], ◌∷◌, ◌++◌, Res, ok, err, panic, out_of_fuel, ltb, ◌==◌,
  if◌then◌else◌,
}
use arcon.Data.{NodeId, Watermark, Epoch, ArconElement, ArconEvent, RawArconMessage}

-- What an operator works on: its part of the backend (`session`), the timer, and the events that
-- it has handed to the channel strategy, oldest first.
pub record World (S T OUT : Type 0) : Type 0 where
  pub session : S
  pub timer : T
  pub sent : List (ArconEvent OUT)

-- The trait `Operator`, at the calls that a node makes.
pub record Operator (IN OUT TS S T : Type 0) : Type 0 where
  pub handle_element : ArconElement IN → World S T OUT → World S T OUT
  pub handle_watermark : Watermark → World S T OUT → World S T OUT
  pub handle_epoch : Epoch → World S T OUT → World S T OUT
  pub handle_timeout : TS → World S T OUT → World S T OUT

-- The trait `TimerBackend`, at the calls that a node makes.
pub record TimerBackend (TS S T : Type 0) : Type 0 where
  pub advance_to : ℕ → S × T → List TS × (S × T)
  pub handle_epoch : Epoch → S × T → S × T

-- The persistent state. `blocked_channels` is a map to `()`.
pub record NodeState (IN : Type 0) : Type 0 where
  pub watermarks : List (NodeId × Watermark)
  pub current_watermark : Option Watermark
  pub current_epoch : Option Epoch
  pub blocked_channels : List (NodeId × Unit {0})
  pub message_buffer : List (RawArconMessage IN)

-- The meter is read here as its `count`, which wraps; its rates are floats.
pub record NodeMetrics : Type 0 where
  pub inbound_throughput : ℕ
  pub epoch_counter : ℕ
  pub watermark_counter : ℕ
  pub watermark : Watermark
  pub epoch : Epoch
  pub outbound_channels : ℕ
  pub inbound_channels : ℕ

-- The name of a checkpoint, `{base}/checkpoint_{id}_{epoch}`, and what the backend holds then.
pub record Checkpoint (IN S : Type 0) : Type 0 where
  pub base_dir : List ℕ
  pub id : NodeId
  pub epoch : Epoch
  pub node_state : NodeState IN
  pub session : S

pub record Node (IN OUT S T : Type 0) : Type 0 where
  pub state : NodeState IN
  pub metrics : NodeMetrics
  pub world : World S T OUT
  pub checkpoints : List (Checkpoint IN S)
  pub killed : Bool

-- What does not change: the node's id, its input channels, the configured `checkpoint_dir`.
pub record Config : Type 0 where
  pub id : NodeId
  pub in_channels : List NodeId
  pub checkpoint_dir : Option (List ℕ)

-- A call on a node; what it has changed stays also when it fails.
abbrev pub M : Type 0 → Type 0 → Type 0 → Type 0 → Type 0 → Type 0
M IN OUT S T A = Node IN OUT S T → Res A × Node IN OUT S T

module _ {IN OUT S T : Type 0} where
  abbrev pub carry_on :
      {A B : Type 0} → Res A × Node IN OUT S T → (A → M IN OUT S T B) → Res B × Node IN OUT S T
  carry_on (ok a, n) f = f a n
  carry_on (err e, n) f = (err e, n)
  carry_on (panic, n) f = (panic, n)
  carry_on (out_of_fuel, n) f = (out_of_fuel, n)

  infixl 5 ◌>>=◌ ◌>>◌
  abbrev pub ◌>>=◌ : {A B : Type 0} → M IN OUT S T A → (A → M IN OUT S T B) → M IN OUT S T B
  ◌>>=◌ m f n = carry_on (m n) f

  abbrev pub ◌>>◌ : {B : Type 0} → M IN OUT S T (Unit {0}) → M IN OUT S T B → M IN OUT S T B
  ◌>>◌ m k n = carry_on (m n) (λ _. k)

  abbrev pub lift : {A : Type 0} → Res A → M IN OUT S T A
  lift r n = (r, n)

  abbrev pub done : M IN OUT S T (Unit {0})
  done n = (ok tt, n)

  abbrev pub modify : (Node IN OUT S T → Node IN OUT S T) → M IN OUT S T (Unit {0})
  modify f n = (ok tt, f n)

  abbrev pub get_state : M IN OUT S T (NodeState IN)
  get_state n = (ok n.state, n)

-- `in_channels.contains`.
unfoldable pub contains : NodeId → List NodeId → Bool
contains c [] = false
contains c (d ∷ ds) = if d == c then true else contains c ds

-- `values().chain(once(w)).min()`.
unfoldable pub lowest : Watermark → List (NodeId × Watermark) → Watermark
lowest w [] = w
lowest w ((c, v) ∷ m) = let rest = lowest w m in if ltb rest v then rest else v

module _ {IN OUT S T : Type 0} where
  abbrev pub set_state : (NodeState IN → NodeState IN) → Node IN OUT S T → Node IN OUT S T
  set_state f n = record n { state = f n.state }

  abbrev pub set_metrics : (NodeMetrics → NodeMetrics) → Node IN OUT S T → Node IN OUT S T
  set_metrics f n = record n { metrics = f n.metrics }

  abbrev pub set_world : (World S T OUT → World S T OUT) → Node IN OUT S T → Node IN OUT S T
  set_world f n = record n { world = f n.world }

  -- `channel_strategy.add`.
  abbrev pub send : ArconEvent OUT → Node IN OUT S T → Node IN OUT S T
  send e n = set_world (λ w. record w { sent = w.sent ++ e ∷ [] }) n
