-- ===== src/Proto/Sync.antt =====
-- adb_proto/src/sync.rs: the framing of the `sync:` file-transfer service.
pub mod Request
pub mod Reader
pub mod Frames
pub mod Replies
pub mod Transfer
pub mod Stays
pub mod Push
mod Examples
