-- ===== src/Permissions.antt =====
-- Permissions (crates/core/permissions): flags, values and overrides, and the calculation of what a
-- user may do to a user, in a server and in a channel.
pub mod Flags
pub mod Value
pub mod Bitwise
pub mod Override
pub mod Query
pub mod Calculate
pub mod Ensures
pub mod Visible
pub mod Sequence
mod Tests
