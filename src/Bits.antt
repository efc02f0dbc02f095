-- ===== src/Bits.antt =====
-- Flag words: single bits of a number, the operators `&`, `|` and `!` bit by bit, and equality of
-- words from equality of their bits.
mod Digits
mod Bit
mod Flag
unfoldable pub use Bit.{bit, complement}
pub use Bit.*
pub use Flag.*
