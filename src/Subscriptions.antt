-- ===== src/Subscriptions.antt =====
-- The subscriptions of a websocket connection (crates/bonfire/src/events/state.rs).
pub mod Queue
pub mod Flush
mod Tests
