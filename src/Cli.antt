-- ===== src/Cli.antt =====
-- The command line program (adb_cli/src): the names of devices, the requests it accepts, and the
-- daemon that owns the direct connections.
pub mod Selector
pub mod Requests
pub mod Shell
pub mod Daemon
pub mod Direct
mod Examples
mod DaemonExamples
