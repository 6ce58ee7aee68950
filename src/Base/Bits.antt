-- ===== src/Base/Bits.antt =====
-- The binary digits of a number, the digits of `&`, `|` and `^`, and words given by their digits.
mod Digits
mod Words
unfoldable pub use Digits.*
unfoldable pub use Words.*
