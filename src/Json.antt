-- ===== src/Json.antt =====
-- `encoding/json` as the program uses it: strings, values, compact printing and parsing.
pub mod Utf8
pub mod Quote
pub mod Value
pub mod Number
pub mod Parse
