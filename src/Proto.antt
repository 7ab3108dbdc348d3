-- ===== src/Proto.antt =====
-- adb_proto: the sans-IO core of the protocol.
pub mod Kinds
pub mod Message
pub mod Session
pub mod Sync
mod Examples
