-- ===== src/Text.antt =====
-- The text functions that the program takes from Go's standard library.
pub mod Split
pub mod Trim
pub mod Base64
pub mod Hex
pub mod Decimal
pub mod Integer
