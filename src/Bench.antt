-- ===== src/Bench.antt =====
-- cmd/sprint4/main.go: the benchmark and the correctness suite. Durations are numbers of nanoseconds,
-- and what the clock, the random numbers and the finished goroutines give is an argument.
pub mod Leaves
pub mod Client
pub mod Latency
pub mod Pacing
pub mod Tokens
pub mod Throughput
pub mod Correctness
pub mod Reports
pub mod Attempts
pub mod Appending
pub mod Run
pub mod Summary
