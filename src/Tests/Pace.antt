-- ===== src/Tests/Pace.antt =====
-- A short run of the throughput benchmark, with one entry a tick.
use tessera_transparency.Base.{
  ℕ, ◌*◌, ◌^◌, ◌<◌, ◌≡◌, refl, sym, List, [], ◌∷◌, ◌++◌, ok, length, arith, ok-injective, ap,
}
use tessera_transparency.Signer.Keys.{Signer}
use tessera_transparency.Signer.Tokens.Laws.{seeded}
use tessera_transparency.Log.{Appender}
use tessera_transparency.Bench.Pacing.{entries_per_tick}
use tessera_transparency.Bench.Throughput.{
  Event, tick, progress, deadline, finished, Run, run_throughput,
}
use tessera_transparency.Log.Indexes.{IsSequential}
use tessera_transparency.Bench.Throughput.Entries.{IsInOrder}
use tessera_transparency.Bench.Throughput.Ending.{ticks, run_throughput-IsInOrder}
use tessera_transparency.Bench.Throughput.Laws.{IsTrue, run_throughput-IsTrue}
use tessera_transparency.Tests.Instances.{
  toy_log, toy_merkle, toy_ed25519, toy_ed25519-IsLawful, toy_seed, toy_vkey,
}

-- A future is the index that its entry was given.
abbrev indexed : Appender toy_log
indexed = record {
  Future = ℕ;
  add = λ st e. (st ++ e ∷ [], length st);
  await = λ st f. (st, ok (f, []));
  shutdown = λ st. (st, ok tt);
}

indexed-IsSequential : IsSequential toy_log indexed
indexed-IsSequential = record {
  entries = λ st. st;
  index = λ f. f;
  entries-add = λ st e. refl;
  index-add = λ st e. refl;
  entries-await = λ st f. refl;
  await_index = λ st f idx raw h. ap (λ p. p.0) (ok-injective (sym h));
}

empty : indexed-IsSequential.entries [] ≡ []
unfolding indexed-IsSequential
empty = refl

abbrev signer : Signer
signer = seeded toy_ed25519 toy_ed25519-IsLawful toy_vkey toy_seed refl

abbrev clock : ℕ → ℕ
clock i = 1700000000

-- A second answer for the first entry comes in the second tick; the second entry is answered behind
-- the deadline.
abbrev before : List Event
before = tick [] ∷ progress ∷ finished 0 ∷ tick ((0 ∷ []) ∷ []) ∷ []

abbrev after : List Event
after = finished 1 ∷ []

few : ticks before * entries_per_tick 1000 < 2 ^ 64
unfolding ticks entries_per_tick
few = omega arith

run_throughput-IsInOrder_example :
    (r : Run toy_ed25519 toy_log indexed toy_merkle signer clock) × (run_throughput toy_ed25519
        toy_log indexed toy_merkle signer clock 1000
        (before ++ deadline ∷ after)
        []
      ≡ ok r)
    × IsInOrder toy_ed25519 toy_log indexed toy_merkle signer clock indexed-IsSequential r
    × (r.entry_idx ≡ ticks before * entries_per_tick 1000)
run_throughput-IsInOrder_example =
    run_throughput-IsInOrder toy_ed25519 toy_log indexed toy_merkle signer clock
      indexed-IsSequential 1000 before after [] (omega arith) few empty

abbrev ran :
    (r : Run toy_ed25519 toy_log indexed toy_merkle signer clock) × (run_throughput toy_ed25519
        toy_log indexed toy_merkle signer clock 1000
        (before ++ deadline ∷ after)
        []
      ≡ ok r)
    × IsInOrder toy_ed25519 toy_log indexed toy_merkle signer clock indexed-IsSequential r
    × (r.entry_idx ≡ ticks before * entries_per_tick 1000)
ran =
    run_throughput-IsInOrder toy_ed25519 toy_log indexed toy_merkle signer clock
      indexed-IsSequential 1000 before after [] (omega arith) few empty

run_throughput-IsTrue_example :
    IsTrue toy_ed25519 toy_log indexed toy_merkle signer clock indexed-IsSequential ran.0
run_throughput-IsTrue_example =
    run_throughput-IsTrue toy_ed25519 toy_log indexed toy_merkle signer clock indexed-IsSequential
      1000 (before ++ deadline ∷ after) [] ran.0 empty ran.1
