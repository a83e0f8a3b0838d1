-- ===== src/Bench/Attempts.antt =====
-- The rounds of the goroutines of `runLatencyLevel`, and the levels of `runLatencyPhase` behind the
-- set-up of its server. The rounds are a list, in the order in which their answers were counted, with
-- what the random numbers, HTTP and the clock gave to each; times are in nanoseconds.
pub mod Laws
use tessera_transparency.Base.{
  Bool, ℕ, suc, List, [], ◌∷◌, ◌++◌, map, length, get_or, none, some, Bytes, ltb, ◌==◌, ◌||◌,
  if◌then◌else◌,
}
use tessera_transparency.Log.{Merkle}
use tessera_transparency.Bench.Leaves.{Leaves}
use tessera_transparency.Bench.Client.{check_answer}
use tessera_transparency.Bench.Latency.{percentiles}
use tessera_transparency.Bench.Reports.{Floats, ThroughputResult, LatencyResult}

-- `unsent`: no request could be made, or no answer came. An answer has its status, its body, and the
-- time until it was decoded.
pub data Outcome : Type 0 where
  unsent : Outcome
  answered : ℕ → Bytes → ℕ → Outcome

pub record Attempt : Type 0 where
  pub drawn : ℕ
  pub outcome : Outcome

-- `totalReqs` and `durations`
pub record Tally : Type 0 where
  pub total_reqs : ℕ
  pub durations : List ℕ

abbrev pub no_reqs : Tally
no_reqs = record { total_reqs = 0; durations = [] }

module _ (m : Merkle) where
  unfoldable pub on_outcome : ℕ → Bytes → Outcome → Tally → Tally
  on_outcome idx leaf unsent t = t
  on_outcome idx leaf (answered status body elapsed) t =
      if check_answer m idx leaf status body
      then record { total_reqs = suc t.total_reqs; durations = t.durations ++ elapsed ∷ [] }
      else t

  -- A round: an index without a hash is passed over.
  unfoldable pub on_attempt : Leaves → Attempt → Tally → Tally
  unfolding on_outcome
  on_attempt leaves a t = elim (get_or leaves a.drawn none) [
    | none ↦ t
    | some leaf ↦ on_outcome a.drawn leaf a.outcome t
  ]

  unfoldable pub on_attempts : Leaves → List Attempt → Tally → Tally
  unfolding on_attempt
  on_attempts leaves [] t = t
  on_attempts leaves (a ∷ rounds) t = on_attempts leaves rounds (on_attempt leaves a t)

-- What happens at a level: its rounds, and the seconds that it takes.
pub record Rounds (fl : Floats) : Type 0 where
  pub attempts : List Attempt
  pub seconds : fl.Float

module _ (fl : Floats) (quotient : ℕ → ℕ → fl.Float) (zero : fl.Float) (m : Merkle) where
  -- Nanoseconds in milliseconds, where there was a request.
  milliseconds : ℕ → ℕ → fl.Float
  milliseconds n d = if ltb 0 n then quotient d 1000000 else zero

  -- The result of a level, from what was counted.
  level_result : ℕ → fl.Float → Tally → LatencyResult fl
  unfolding milliseconds
  level_result concurrency seconds t =
      let (p50, p99) = percentiles t.durations in
      let n = length t.durations in
      record {
        concurrency = concurrency;
        duration = seconds;
        total_reqs = t.total_reqs;
        p50ms = milliseconds n p50;
        p99ms = milliseconds n p99;
      }

  -- `runLatencyLevel`
  unfoldable pub run_level : Leaves → ℕ → Rounds fl → LatencyResult fl
  unfolding on_attempts level_result
  run_level leaves concurrency r =
      level_result concurrency r.seconds (on_attempts m leaves r.attempts no_reqs)

  -- Where Run A has confirmed nothing, there is nothing to measure.
  unfoldable pub is_idle : ThroughputResult fl → Bool
  is_idle a = a.confirmed == 0 || length a.leaf_hashes == 0

  -- `runLatencyPhase`
  unfoldable pub run_latency : ThroughputResult fl → (ℕ → Rounds fl) → List (LatencyResult fl)
  unfolding is_idle run_level
  run_latency a rounds =
      if is_idle a
      then []
      else map (λ concurrency. run_level a.leaf_hashes concurrency (rounds concurrency))
          (10 ∷ 50 ∷ [])
