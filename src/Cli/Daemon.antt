-- ===== src/Cli/Daemon.antt =====
-- The daemon of adb_cli/src/direct_daemon.rs: it owns one USB device, and serves the requests that
-- come in over a local socket.
pub mod Stream
pub mod Input
pub mod Request
pub mod Handle
