-- ===== src/Text.antt =====
-- Byte strings: the character classes, the conversions and the set of the C++ library, as the
-- sources use them.
pub mod Decimal
pub mod Bytes
pub mod Trim
pub mod Strtoull
pub mod StringSet
