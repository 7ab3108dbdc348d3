-- ===== src/Client.antt =====
-- adb_client: the message devices, which talk to a device without a server.
pub mod Kinds
pub mod Message
pub mod Dispatcher
pub mod Session
pub mod Dispatched
pub mod ReverseRelay
pub mod Wireless
pub mod KeyFile
pub mod PublicKey
pub mod Device
pub mod Forwards
mod Examples
