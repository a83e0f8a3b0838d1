-- ===== src/Bench/Pacing/Laws.antt =====
-- How near the pace comes to the target.
use tessera_transparency.Base.{
  ℕ, suc, ◌*◌, ◌/◌, ◌≤◌, ◌<◌, ◌≡◌, ltb, if◌then◌else◌, arith, lt→ltb, Bool-cases, inl, inr, ltb→lt,
  false,
}
use native.Mathlib.Nat.{
  le-div_iff_mul-le, div-lt_iff_lt-mul, mul-div-le, lt-div-mul-add, mul_comm, div_self, suc-mul,
}
use tessera_transparency.Bench.Pacing.{
  second, millisecond, ticks_per_sec, entries_per_tick, effective_target,
}

-- A slow rate has a tick for every entry.
ticks_slow : (rate : ℕ) → 0 < rate → rate ≤ 1000 → ticks_per_sec rate ≡ rate
unfolding ticks_per_sec
ticks_slow rate h slow =
    let q = second / rate in
    let long : millisecond ≤ q = (le-div_iff_mul-le h).1 (omega arith) in
    let tick : ltb q millisecond ≡ false = ground arith in
    let positive : 0 < q = omega arith in
    let room : second < suc rate * q =
      omega (arith, suc-mul rate q, mul_comm rate q, lt-div-mul-add {a = second} h) in
    let low : rate ≤ second / q = (le-div_iff_mul-le positive).1 (mul-div-le second rate) in
    let high : second / q < suc rate = (div-lt_iff_lt-mul positive).1 room in rw tick (omega arith)

-- A fast rate has a tick every millisecond.
ticks_fast : (rate : ℕ) → 1000 < rate → ticks_per_sec rate ≡ 1000
unfolding ticks_per_sec
ticks_fast rate fast =
    let positive : 0 < rate = omega arith in
    let short : second / rate < millisecond = (div-lt_iff_lt-mul positive).1 (omega arith) in
    rw (lt→ltb (second / rate) millisecond short)

-- Up to 1000 entries a second the pace is the target exactly; beyond, it is the target rounded down
-- to a multiple of 1000. The target is not 0.
pub effective_target_lem :
    (rate : ℕ)
    → 0 < rate
    → effective_target rate ≡ (if ltb 1000 rate then rate / 1000 * 1000 else rate)
unfolding effective_target entries_per_tick
effective_target_lem rate h = elim (Bool-cases (ltb 1000 rate)) [
  | inl fast ↦
      let above = ltb→lt 1000 rate fast in rw fast (rw (ticks_fast rate above) (ground arith))
  | inr slow ↦ rw slow (rw (ticks_slow rate h (ground arith)) (rw (div_self h) (omega arith)))
]
