-- ===== src/Bytes.antt =====
-- Byte strings as lists of numbers: what the codecs use of Rust's standard library
-- (`to_le_bytes`, `from_le_bytes`, slicing) and the loops that the codecs share.
pub mod Words
pub mod Readers
pub mod Loops
pub mod Utf8
pub mod Ordered
pub mod Bits
