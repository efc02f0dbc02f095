-- ===== src/Presence.antt =====
-- Presence: the sessions of users in Redis (crates/core/presence/src/lib.rs, operations.rs).
pub mod Redis
pub mod Sessions
pub mod Invariant
pub mod Removal
pub mod Leaving
pub mod Online
pub mod Region
mod Tests
