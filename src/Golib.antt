-- ===== src/Golib.antt =====
-- What the program uses of Go's standard library.
pub mod Strings
pub mod Strconv
pub mod Sort
pub mod Crc32
