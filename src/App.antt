-- ===== src/App.antt =====
-- app/app.go: the lifecycle of the bridge and the recovery of the gateway.
pub mod State
pub mod Connect
pub mod Recover
pub mod Health
pub mod Life
mod Schedule
mod Steps
pub mod Moves
mod Plug
mod Debounce
mod Attempts
mod Gates
mod Verdict
mod Keeps
mod Session
mod Startup
mod Runs
