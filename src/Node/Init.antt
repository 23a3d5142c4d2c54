-- ===== src/Node/Init.antt =====
-- execution-plane/arcon/src/stream/node/mod.rs: `Node::new`, on a fresh or a restored backend.
use arcon.Common.{ℕ, false, Option, none, some, List, [], ◌∷◌, length, if◌then◌else◌, ℕ_discrete}
use arcon.Common.Assoc.{get, insert, is_some}
use arcon.Data.{NodeId, Watermark}
use arcon.Node.Defs.{NodeState, NodeMetrics, Node, Config}

-- A channel that has no watermark yet starts at 0.
unfoldable pub init_watermarks : List NodeId → List (NodeId × Watermark) → List (NodeId × Watermark)
init_watermarks [] m = m
init_watermarks (c ∷ cs) m =
    init_watermarks cs (if is_some (get ℕ_discrete c m) then m else insert ℕ_discrete c 0 m)

abbrev pub or_zero : Option ℕ → Option ℕ
or_zero none = some 0
or_zero (some n) = some n

unfoldable pub init_state : {IN : Type 0} → Config → NodeState IN → NodeState IN
unfolding init_watermarks
init_state cfg s = record s {
  watermarks = init_watermarks cfg.in_channels s.watermarks;
  current_watermark = or_zero s.current_watermark;
  current_epoch = or_zero s.current_epoch;
}

unfoldable pub empty_state : {IN : Type 0} → NodeState IN
empty_state = record {
  watermarks = [];
  current_watermark = none;
  current_epoch = none;
  blocked_channels = [];
  message_buffer = [];
}

unfoldable pub new_metrics : Config → ℕ → NodeMetrics
new_metrics cfg num_channels = record {
  inbound_throughput = 0;
  epoch_counter = 0;
  watermark_counter = 0;
  watermark = 0;
  epoch = 0;
  outbound_channels = num_channels;
  inbound_channels = length cfg.in_channels;
}

-- The timer and the operator initialise their part of the backend, which comes as an argument.
unfoldable pub new : {IN OUT S T : Type 0} → Config → ℕ → NodeState IN → S → T → Node IN OUT S T
unfolding init_state new_metrics
new cfg num_channels restored session timer = record {
  state = init_state cfg restored;
  metrics = new_metrics cfg num_channels;
  world = record { session = session; timer = timer; sent = [] };
  checkpoints = [];
  killed = false;
}
