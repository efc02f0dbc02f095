-- ===== src/Ratelimits.antt =====
-- Rate limits: the limiter (crates/core/ratelimits/src/ratelimiter.rs) and the resolver of buckets
-- of the REST API (crates/delta/src/util/ratelimits.rs).
pub mod Limiter
pub mod Step
pub mod Window
pub mod Resolver
mod Tests
