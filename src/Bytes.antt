-- ===== src/Bytes.antt =====
-- lib/bytes/bytes.go. A slice is a list of bytes; a slice that is changed through a pointer is
-- returned, and `none` stands for a run-time panic. `reflect` (`Concat`) and printing (`PrintHex`)
-- are left out.
pub mod Integers
pub mod Hex
pub mod Token
pub mod Cut
pub mod Enclose
pub mod Search
