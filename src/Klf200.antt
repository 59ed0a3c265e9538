-- ===== src/Klf200.antt =====
-- app/klf200: the client's side of the gateway, over the frames of `Protocol`.
pub mod Session
pub mod Node
pub mod Nodes
pub mod Updater
pub mod Command
pub mod System
pub mod Queries
pub mod Heartbeat
pub mod Scenes
pub mod Device
pub mod Connection
mod Runs
