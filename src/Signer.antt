-- ===== src/Signer.antt =====
-- internal/signer/signer.go: the entry signer. `crypto/ed25519` is a parameter, as are the file
-- system and the key generator of `golang.org/x/mod/sumdb/note`.
pub mod Keys
pub mod Lines
pub mod Store
pub mod Tokens
