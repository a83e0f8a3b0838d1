-- ===== src/Schema.antt =====
-- internal/schema/token.go: the two token types, their canonical encodings and their decoders.
-- A []byte is an `Option`, since nil and the empty slice differ in JSON.
pub mod Fields
pub mod Host
pub mod Binary
