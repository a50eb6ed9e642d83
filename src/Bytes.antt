-- ===== src/Bytes.antt =====
-- Byte strings, `Vec<u8>` and `&[u8]`, with the order that Rust gives to slices.
pub mod Order
pub mod Utf8
pub mod Words
