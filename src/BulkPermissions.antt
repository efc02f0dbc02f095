-- ===== src/BulkPermissions.antt =====
-- The permissions of many members of a server in one channel
-- (crates/core/database/src/util/bulk_permissions.rs).
pub mod Query
pub mod Calculate
pub mod View
pub mod Agreement
pub mod Sample
mod Tests
