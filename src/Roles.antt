-- ===== src/Roles.antt =====
-- Roles of servers (crates/core/database/src/models/servers) and the routes that change them.
pub mod Store
pub mod Routes
pub mod Authority
pub mod Guards
pub mod ChannelStore
pub mod ChannelGuards
pub mod Places
pub mod Ordering
pub mod Reordering
mod Sample
mod Tests
