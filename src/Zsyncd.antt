-- ===== src/Zsyncd.antt =====
-- src/zsyncd.rs, the relay: which addresses may connect, which groups exist, and who is online.
pub mod Probes
pub mod Rooms
pub mod Groups
pub mod Admin
pub mod Leaf
mod Examples
