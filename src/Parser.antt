-- ===== src/Parser.antt =====
-- The parser of mentions in messages (crates/core/parser/src/lib.rs).
pub mod Tokens
pub mod Blocks
pub mod Results
mod Tests
