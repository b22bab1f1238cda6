-- ===== src/Text.antt =====
-- Go strings as byte sequences: what the program uses of the packages strings, unicode, strconv
-- and encoding/hex, and of `range` over a string.
pub mod Bytes
pub mod Runes
pub mod Utf8
pub mod Numbers
