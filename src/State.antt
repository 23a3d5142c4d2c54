-- ===== src/State.antt =====
-- execution-plane/arcon/arcon_state: the state backend that nodes and operators keep their data in.
pub mod Serialization
pub mod Handle
pub mod InMemory
pub mod Rocks
pub mod Sled
