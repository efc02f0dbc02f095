-- ===== src/DatabaseQuery.antt =====
-- `DatabasePermissionQuery` (crates/core/database/src/util/permissions.rs): the permission
-- calculation fed from the database.
pub mod Roles
pub mod State
pub mod Methods
pub mod Order
pub mod Highest
pub mod Users
pub mod Total
pub mod Channels
pub mod Outsiders
mod Tests
