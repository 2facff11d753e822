-- ===== src/Text.antt =====
-- What the code uses of Go's `strings`, `bytes`, `strconv` and `encoding/hex`, on lists of bytes.
pub mod Ints
pub mod Split
pub mod Decimal
pub mod Hex
pub mod Numbers
