-- ===== src/Lib.antt =====
-- The Rust execution plane of Arcon: a streaming runtime in which each node drives an operator.
--
-- Parts and files (paths from the repository's root, below execution-plane/):
-- Node: arcon/src/stream/node/mod.rs. Node/Defs has the state of a node, Node/Events what it does
--   with a message (`handle_message`, `handle_events`, `save_state`, `after_state_save`), Node/Init
--   `Node::new`, Node/Panics the panic of a second borrow of the metrics. The operator, the timer
--   and the user's state are arguments; what a node hands to its channel strategy is the list
--   `sent`; a checkpoint is an entry of the list `checkpoints`.
-- State: arcon/arcon_state/src. State/Serialization is serialization.rs, State/Handle is
--   handles.rs, State/InMemory is in_memory/: a table from keys to boxed values per state id.
--   State/Rocks is rocks/: the database of the crate rocksdb is an argument, its merge operators
--   (State/Rocks/Merging, State/Rocks/Aggregators) are the code's own. State/Sled is sled/: the
--   database of the crate sled is an argument; the export file of a checkpoint is the code's own.
-- Allocator: arcon/src/allocator/mod.rs.
-- Data: arcon/src/data/mod.rs, the messages between nodes.
-- Channel: arcon/src/stream/channel/strategy. The three strategies with one buffer share `add`; KeyBy
--   has a buffer per key range. What is sent is a list of channel numbers and messages. A buffer
--   writer is the list of its values.
-- Source: arcon/src/stream/source, the context of sources and the source over a collection.
-- Functions: arcon/src/stream/operator/function, as operators for the nodes of Node and for sources.
-- Buffer: arcon/src/buffer/event. The buffers that the writers of Channel stand for: memory cells, the
--   pool that hands them out (Buffer/Pool), and the writers and readers that share them, as a step
--   relation (Buffer/Sharing). The allocator of Allocator gives each buffer its block.
-- Window: arcon/src/stream/operator/window. Window/Appender and Window/Incremental are
--   the windows of mod.rs on the backend in memory, Window/Merging is the second under the merge
--   operator of State/Rocks, the rest event_time.rs, with the window's function, the user's state
--   and the timer as arguments.
-- Timer: arcon/src/timer/event_timer.rs, with the hash wheel of another crate as an argument.
-- Common holds the tests on numbers, lists, association lists and results that all of them use.
--
-- A node keeps its watermarks, epoch, blocked channels and message buffer in its state backend;
-- the model keeps them in one record `NodeState`, and the part of the operator and the timer in
-- `session`. The borrow of the metrics that the arm of an epoch holds while it works through the
-- message buffer is the parameter `held`: a borrow under it panics.
-- Machine integers are natural numbers; sums that can wrap are taken modulo 2 ^ w. Maps are
-- association lists. Errors, panics and a model loop that runs out of fuel are the outcomes of
-- `Res`. The busy wait of a buffer pool is followed for a list of rounds, each with what readers
-- release before it. Two loops run on fuel. That over the message buffer has one level: the buffer
-- is empty while its messages are handled, so an inner round has nothing to do. Those of the timer
-- have a round for each millisecond left, and each round takes off one or more.
--
-- Not modelled: I/O (sources and sinks over it, the terminal interface), the backend over FASTER,
-- the actor system (kompact), pipelines and their manager, code generation, and floats. The system
-- allocator, `dyn Any`, the databases and the protobuf encoding are arguments, with what they promise
-- as hypotheses.
pub mod Allocator
pub mod Buffer
pub mod Channel
pub mod Common
pub mod Data
pub mod Functions
pub mod Node
pub mod Source
pub mod State
pub mod Timer
pub mod Window
