-- ===== src/Tests.antt =====
-- Concrete inputs for the theorems, with the libraries behind the program as small functions.
mod Instances
mod Tokens
mod Keys
mod Endpoints
mod Verifying
mod Benchmark
mod KeyFiles
mod Batches
mod ThreeTokens
mod Suite
mod Pace
mod Reports
mod Served
