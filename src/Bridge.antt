-- ===== src/Bridge.antt =====
-- app/bridge: the covers that Home Assistant sees.
pub mod State
pub mod Cover
pub mod Ids
pub mod Discovery
pub mod Manager
mod Derived
mod Published
mod Commands
mod Runs
