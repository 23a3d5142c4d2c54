-- ===== src/Node.antt =====
-- execution-plane/arcon/src/stream/node/mod.rs: a node, which takes messages from its input
-- channels, lines up their watermarks and epochs, and drives an operator. The operator and the
-- timer are parameters. The calls of the state backend are taken to succeed.
pub mod Defs
pub mod Events
pub mod Init
pub mod Lowest
pub mod Watermarks
pub mod Channels
pub mod Invariant
pub mod Validity
pub mod Checkpoints
pub mod Epochs
pub mod Messages
pub mod Runs
pub mod Progress
pub mod Delivery
pub mod Panics
mod Examples
