-- ===== src/Sprints.antt =====
-- The commands cmd/sprint1, cmd/sprint1b, cmd/sprint2 and cmd/sprint3, and what cmd/sprint2,
-- cmd/sprint3 and cmd/sprint4 each hold a copy of: the key file of the checkpoint signer, and its
-- line splitters.
pub mod Split
pub mod KeyFile
pub mod TwoBatches
pub mod FirstLeaf
pub mod ThreeTokens
pub mod Endpoints
