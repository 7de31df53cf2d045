-- ===== src/Std.antt =====
-- What the program uses of Rust's standard library.
pub mod Text
pub mod Number
pub mod Float
pub mod HashMap
pub mod Bits
pub mod Utf8
pub mod Net
