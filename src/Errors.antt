-- ===== src/Errors.antt =====
-- Errors as values, for all components (crates/core/result).
mod Types
pub use Types.{ErrorType, Result, ok, err, ◌>>=◌, Result-cases}
unfoldable pub use Types.{to_internal_error}
