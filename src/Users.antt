-- ===== src/Users.antt =====
-- Relationships between users (crates/core/database/src/models/users/model.rs) over the reference
-- driver's store (crates/core/database/src/models/users/ops/reference.rs).
pub mod Relations
pub mod Scene
pub mod Lookup
pub mod Apply
pub mod Friends
pub mod Exchange
mod Tests
