-- ===== src/Daemon.antt =====
-- src/daemon.rs: the sessions with the peers, on the LAN and through the relay, and the table of
-- the peers.
pub mod Session
pub mod Table
pub mod Dispatch
pub mod Control
pub mod Watcher
pub mod Redial
pub mod Greeting
pub mod Starting
pub mod Joining
mod Examples
pub mod RelaySession
