-- ===== src/Tests/Suite.antt =====
-- The correctness suite over a log that proves everything it is asked for.
use tessera_transparency.Base.{
  ap, false, ok-injective, Result, ℕ, zero, suc, ◌<◌, ◌≡◌, refl, sym, ◌∙◌, List, [], ◌∷◌, ◌++◌,
  Bytes, Bool, true, ok, length, get_or, arith, Bool-cases, inl, inr, replicate, length-replicate,
  ◌==◌,
}
use mathlib.Core.Path.{subst}
use tessera_transparency.Signer.Keys.{Signer}
use tessera_transparency.Signer.Tokens.Laws.{seeded}
use tessera_transparency.Log.{Log, Merkle, Checkpoint, Appender}
use tessera_transparency.Bench.Correctness.{
  EntryRecord, CorrResult, zero_record, check_all, check_record, check_pair, exit_code, corr_total,
  corr_batch, corr_snapshots,
}
use tessera_transparency.Bench.Correctness.Counting.{AllPass}
use tessera_transparency.Bench.Correctness.Laws.{passes_pair, exit_code-AllPass, pairs_of}
use tessera_transparency.Bench.Appending.{Choices, append_batches, check_phase, run_correctness}
use tessera_transparency.Log.Indexes.{IsSequential}
use tessera_transparency.Bench.Appending.Laws.{occurs, tokens_of}
use tessera_transparency.Bench.Appending.Steady.{IsSteady, append_batches_total}
use tessera_transparency.Bench.Appending.Batches.{Finishes, AreRight, append_batches-records}
use tessera_transparency.Bench.Appending.Proved.{
  IsProved, run_correctness_next, run_correctness-IsProved,
}
use tessera_transparency.Bench.Run.{Phases, Fatal, run, run_again, finish, exit_status}
use tessera_transparency.Bench.Run.Files.{IsDisk}
use tessera_transparency.Bench.Run.Proved.{RunsSuite, AllProved, exit_status-AllProved}
use tessera_transparency.Tests.Reports.{whole, Disk, phases, phases-IsDisk}
use tessera_transparency.Tests.Instances.{
  toy_log, toy_merkle, toy_checkpoint, toy_ed25519, toy_ed25519-IsLawful, toy_seed, toy_vkey,
}

-- A future is the index that its entry was given.
abbrev agreeing : Log
agreeing = record toy_log { unmarshal_checkpoint = λ raw. ok (toy_checkpoint 1000) }

abbrev indexed : Appender agreeing
indexed = record {
  Future = ℕ;
  add = λ st e. (st ++ e ∷ [], length st);
  await = λ st f. (st, ok (f, []));
  shutdown = λ st. (st, ok tt);
}

indexed-IsSequential : IsSequential agreeing indexed
indexed-IsSequential = record {
  entries = λ st. st;
  index = λ f. f;
  entries-add = λ st e. refl;
  index-add = λ st e. refl;
  entries-await = λ st f. refl;
  await_index = λ st f idx raw h. ap (λ p. p.0) (ok-injective (sym h));
}

indexed-IsSteady : IsSteady agreeing indexed indexed-IsSequential
unfolding indexed-IsSequential
indexed-IsSteady = record {
  await_ok = λ st f. ([], refl);
  readable = λ st. (length st ∷ [], toy_checkpoint 1000, refl, refl);
}

empty : indexed-IsSequential.entries [] ≡ []
unfolding indexed-IsSequential
empty = refl

abbrev trusting : Merkle
trusting = record toy_merkle {
  verify_inclusion = λ idx size leaf proof root. ok tt;
  verify_consistency = λ from to proof old new. ok tt;
}

-- The last goroutine finishes first.
abbrev down : ℕ → List ℕ
down zero = []
down (suc n) = n ∷ down n

occurs-down : (n k : ℕ) → k < n → occurs k (down n) ≡ true
occurs-down zero k h = absurd (omega arith)
occurs-down (suc n) k h = elim (Bool-cases (k == n)) [
  | inl last ↦ rw last
  | inr before ↦ rw before (occurs-down n k (ground arith))
]

abbrev choices : Choices
choices = record { now = λ i. 1700000000; order = λ b. down 100; draws = [] }

finishing : Finishes choices corr_batch
finishing b k h = occurs-down 100 k h

abbrev signer : Signer
signer = seeded toy_ed25519 toy_ed25519-IsLawful toy_vkey toy_seed refl

-- The state, the records and the snapshots behind the batches.
abbrev appended :
    (st' : List Bytes) × (records : List EntryRecord) × (snapshots : List Bytes) × (append_batches
        toy_ed25519 agreeing indexed trusting signer choices corr_batch corr_snapshots 0
        (replicate corr_total zero_record)
        []
      ≡ (st', ok (records, snapshots)))
appended =
    append_batches_total toy_ed25519 agreeing indexed trusting signer choices indexed-IsSequential
      indexed-IsSteady corr_batch corr_snapshots 0 (replicate corr_total zero_record) []
      (ap (λ (l : List Bytes). length l) empty)
      (omega (arith, length-replicate corr_total zero_record))

append_batches-records_example :
    (length appended.1 ≡ corr_total)
    × AreRight toy_ed25519 agreeing indexed trusting signer choices indexed-IsSequential corr_total
        appended.1
    × (length appended.2 ≡ corr_snapshots)
    × (indexed-IsSequential.entries appended.0
        ≡ tokens_of toy_ed25519 agreeing indexed trusting signer choices.now 0 corr_total)
append_batches-records_example =
    append_batches-records toy_ed25519 agreeing indexed trusting signer choices indexed-IsSequential
      [] appended.0 appended.1 appended.2 finishing empty appended.3

right :
    (length appended.1 ≡ corr_total)
    × AreRight toy_ed25519 agreeing indexed trusting signer choices indexed-IsSequential corr_total
        appended.1
right =
    let (long, at, count, held) =
      append_batches-records toy_ed25519 agreeing indexed trusting signer choices
        indexed-IsSequential [] appended.0 appended.1 appended.2 finishing empty appended.3 in
    (long, at)

-- What a trusting verifier says of the records and snapshots.
AllPass-of_each :
    (p : EntryRecord → Bool) (rs : List EntryRecord)
    → ((j : ℕ) → j < length rs → p (get_or rs j zero_record) ≡ true)
    → AllPass p rs
AllPass-of_each p [] h = tt
AllPass-of_each p (r ∷ rs) h =
    (h 0 (omega arith), AllPass-of_each p rs (λ j k. h (suc j) (omega arith)))

pairs_pass :
    (st : List Bytes) (ps : List (Bytes × Bytes))
    → AllPass (passes_pair agreeing trusting st 1000 (toy_checkpoint 1000)) ps
unfolding check_pair
pairs_pass st [] = tt
pairs_pass st (p ∷ ps) = (refl, pairs_pass st ps)

abbrev result : CorrResult
result = check_all agreeing trusting appended.0 1000 (toy_checkpoint 1000) appended.1 appended.2 []

ended :
    run_correctness toy_ed25519 agreeing indexed trusting signer choices []
    ≡ (appended.0, ok result)
ended =
    run_correctness_next toy_ed25519 agreeing indexed trusting signer choices indexed-IsSequential
      [] appended.0 appended.1 appended.2 appended.3
    ∙ (unfold check_phase in refl)

passed : exit_code result ≡ 0
unfolding check_record
passed =
    (exit_code-AllPass agreeing trusting appended.0 1000 (toy_checkpoint 1000) appended.1 appended.2
        []).1
      (
        AllPass-of_each _ appended.1 (λ j h.
            subst
              (λ r. check_record agreeing trusting appended.0 1000 (toy_checkpoint 1000) r ≡ true)
              (sym (right.1 j (omega (arith, right.0)))) refl),
        pairs_pass appended.0 (pairs_of appended.2),
        tt,
      )

run_correctness-IsProved_example :
    (raw : Bytes) × (cp : Checkpoint) × (pb : ℕ) × (agreeing.unmarshal_checkpoint raw ≡ ok cp)
    × (agreeing.new_proof_builder appended.0 cp.size ≡ ok pb)
    × ((j : ℕ)
        → j < corr_total
        → IsProved toy_ed25519 agreeing indexed trusting signer choices indexed-IsSequential
            appended.0 pb cp j)
run_correctness-IsProved_example =
    run_correctness-IsProved toy_ed25519 agreeing indexed trusting signer choices
      indexed-IsSequential [] appended.0 result finishing empty ended passed

-- The run of cmd/sprint4 with this suite.
abbrev suite_phases : Phases whole
suite_phases = record phases { run_correctness = λ d. (d, ok result) }

suite_disk : IsDisk whole suite_phases
suite_disk = record {
  file = phases-IsDisk.file;
  written = phases-IsDisk.written;
  others = phases-IsDisk.others;
}

runs_suite :
    RunsSuite whole suite_phases suite_disk toy_ed25519 agreeing indexed trusting signer choices
      indexed-IsSequential
runs_suite st st' res h = (
  [],
  appended.0,
  empty,
  ended
      ∙ ap (λ x. (appended.0, ok x))
          (ok-injective (ap (λ (p : Disk × Result Fatal CorrResult). p.1) h)),
)

exits : exit_status whole suite_phases (run whole suite_phases false []) ≡ 0
unfolding exit_status run run_again finish
exits = passed

exit_status-AllProved_example :
    AllProved whole suite_phases suite_disk toy_ed25519 agreeing indexed trusting signer choices
      indexed-IsSequential
exit_status-AllProved_example =
    exit_status-AllProved whole suite_phases suite_disk toy_ed25519 agreeing indexed trusting signer
      choices indexed-IsSequential false [] runs_suite finishing exits
