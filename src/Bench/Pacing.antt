-- ===== src/Bench/Pacing.antt =====
-- The pace of `runThroughput`: the interval of its ticker and the entries that a tick appends.
pub mod Laws
use tessera_transparency.Base.{ℕ, suc, ◌*◌, ◌/◌, ◌^◌, ltb, if◌then◌else◌}

-- Nanoseconds, as in `time.Duration`.
abbrev pub second : ℕ
second = 1000000000

abbrev pub millisecond : ℕ
millisecond = 1000000

-- `tickInterval`; the rate is not 0.
unfoldable pub tick_interval : ℕ → ℕ
tick_interval rate = let t = second / rate in if ltb t millisecond then millisecond else t

-- `ticksPerSec`
unfoldable pub ticks_per_sec : ℕ → ℕ
unfolding tick_interval
ticks_per_sec rate = second / tick_interval rate

-- `entriesPerTick`
unfoldable pub entries_per_tick : ℕ → ℕ
unfolding ticks_per_sec
entries_per_tick rate = let e = rate / ticks_per_sec rate in if ltb e 1 then 1 else e

-- What is printed as `effective_target`.
unfoldable pub effective_target : ℕ → ℕ
unfolding entries_per_tick
effective_target rate = ticks_per_sec rate * entries_per_tick rate
