-- ===== src/Bench/Correctness/Laws.antt =====
-- The counters of the suite, and what its exit code and its tampering mean.
use tessera_transparency.Base.{
  ℕ, suc, ◌+◌, ◌-◌, ◌/◌, ◌≡◌, refl, ◌≢◌, ◌↔◌, ap, ◌∙◌, List, [], ◌∷◌, Bytes, length, get_or, arith,
  IsBytes, Bool, Bool-cases, inl, inr,
}
use tessera_transparency.Base.Flips.{flip_at, flip_at-flip_at, flip_at_ne, length-flip_at}
use tessera_transparency.Bench.Correctness.Counting.{
  passing, failing, AllPass, passing-failing, failing-AllPass, AllPass-failing,
}
use tessera_transparency.Log.{Log, Merkle, Checkpoint}
use tessera_transparency.Bench.Correctness.{
  EntryRecord, CorrResult, start_result, corr_total, corr_cons_proofs, corr_neg_tests, tamper,
  check_record, check_inclusions, check_pair, check_consistencies, check_negative, check_negatives,
  check_all, exit_code, zero_record, corr_snapshots,
}

-- The tampered copy of a token that is not empty differs from it, has its length, and is the token
-- again when it is tampered with once more: exactly one byte is changed.
pub tamper_lem :
    (d : Bytes)
    → IsBytes d
    → d ≢ []
    → (tamper d ≢ d) × (length (tamper d) ≡ length d) × (tamper (tamper d) ≡ d)
unfolding tamper
tamper_lem [] h filled = absurd (filled refl)
tamper_lem (b ∷ d) h filled =
    let i = length (b ∷ d) / 2 in
    (
      flip_at_ne i (b ∷ d) h (omega arith),
      length-flip_at i (b ∷ d),
      ap (λ n. flip_at (n / 2) (flip_at i (b ∷ d))) (length-flip_at i (b ∷ d))
          ∙ flip_at-flip_at i (b ∷ d) h,
    )

-- The snapshots that stand behind each other.
abbrev pub pairs_of : List Bytes → List (Bytes × Bytes)
pairs_of [] = []
pairs_of (from ∷ []) = []
pairs_of (from ∷ to ∷ more) = (from, to) ∷ pairs_of (to ∷ more)

-- The result with two counters raised.
abbrev add_inclusions : CorrResult → ℕ → ℕ → CorrResult
add_inclusions res a b = record res {
  inclusion_passed = res.inclusion_passed + a;
  inclusion_failed = res.inclusion_failed + b;
}

abbrev add_consistencies : CorrResult → ℕ → ℕ → CorrResult
add_consistencies res a b = record res {
  consistency_passed = res.consistency_passed + a;
  consistency_failed = res.consistency_failed + b;
}

abbrev add_negatives : CorrResult → ℕ → ℕ → CorrResult
add_negatives res a b = record res {
  negative_passed = res.negative_passed + a;
  negative_failed = res.negative_failed + b;
}

length-pairs_of : (ss : List Bytes) → length (pairs_of ss) ≡ length ss - 1
length-pairs_of [] = refl
length-pairs_of (s ∷ []) = refl
length-pairs_of (s ∷ t ∷ ss) = omega (arith, length-pairs_of (t ∷ ss))

pub exit_code_sound :
    (res : CorrResult)
    → exit_code res ≡ 0
    → (res.inclusion_failed ≡ 0) × (res.consistency_failed ≡ 0) × (res.negative_failed ≡ 0)
unfolding exit_code
exit_code_sound res h = ground arith

pub exit_code_complete :
    (res : CorrResult)
    → res.inclusion_failed ≡ 0
    → res.consistency_failed ≡ 0
    → res.negative_failed ≡ 0
    → exit_code res ≡ 0
unfolding exit_code
exit_code_complete res hi hc hn = ground arith

module _ (log : Log) (m : Merkle) (st : log.State) (pb : log.Builder) (cp : Checkpoint) where
  abbrev pub passes_record : EntryRecord → Bool
  passes_record = check_record log m st pb cp

  abbrev pub passes_pair : Bytes × Bytes → Bool
  passes_pair pair = check_pair log m st pair.0 pair.1

  abbrev pub passes_draw : List EntryRecord → ℕ → Bool
  passes_draw rs i = check_negative log m st pb cp (get_or rs i zero_record)

  check_inclusions_lem :
      (xs : List EntryRecord) (res : CorrResult)
      → check_inclusions log m st pb cp xs res
        ≡ add_inclusions res (passing passes_record xs) (failing passes_record xs)
  unfolding check_inclusions passing failing
  check_inclusions_lem [] res = ground arith
  check_inclusions_lem (x ∷ xs) res = elim (Bool-cases (passes_record x)) [
    | inl good ↦ rw good (
        check_inclusions_lem xs (record res { inclusion_passed = suc res.inclusion_passed })
        ∙ ap
            (λ n. record res {
              inclusion_passed = n;
              inclusion_failed = res.inclusion_failed + failing passes_record xs;
            })
            (omega arith))
    | inr bad ↦ rw bad (
        check_inclusions_lem xs (record res { inclusion_failed = suc res.inclusion_failed })
        ∙ ap
            (λ n. record res {
              inclusion_passed = res.inclusion_passed + passing passes_record xs;
              inclusion_failed = n;
            })
            (omega arith))
  ]

  check_negatives_lem :
      (rs : List EntryRecord) (xs : List ℕ) (res : CorrResult)
      → check_negatives log m st pb cp rs xs res
        ≡ add_negatives res (passing (passes_draw rs) xs) (failing (passes_draw rs) xs)
  unfolding check_negatives passing failing
  check_negatives_lem rs [] res = ground arith
  check_negatives_lem rs (x ∷ xs) res = elim (Bool-cases (passes_draw rs x)) [
    | inl good ↦ rw good (
        check_negatives_lem rs xs (record res { negative_passed = suc res.negative_passed })
        ∙ ap
            (λ n. record res {
              negative_passed = n;
              negative_failed = res.negative_failed + failing (passes_draw rs) xs;
            })
            (omega arith))
    | inr bad ↦ rw bad (
        check_negatives_lem rs xs (record res { negative_failed = suc res.negative_failed })
        ∙ ap
            (λ n. record res {
              negative_passed = res.negative_passed + passing (passes_draw rs) xs;
              negative_failed = n;
            })
            (omega arith))
  ]

  check_consistencies_lem :
      (xs : List Bytes) (res : CorrResult)
      → check_consistencies log m st xs res
        ≡ add_consistencies res
            (passing passes_pair (pairs_of xs))
            (failing passes_pair (pairs_of xs))
  unfolding check_consistencies passing failing
  check_consistencies_lem [] res = ground arith
  check_consistencies_lem (x ∷ []) res = ground arith
  check_consistencies_lem (x ∷ y ∷ xs) res =
      let n = failing passes_pair (pairs_of (y ∷ xs)) in
      let k = passing passes_pair (pairs_of (y ∷ xs)) in
      elim (Bool-cases (passes_pair (x, y))) [
        | inl good ↦ rw good (
            check_consistencies_lem (y ∷ xs)
              (record res { consistency_passed = suc res.consistency_passed })
            ∙ ap
                (λ c. record res {
                  consistency_passed = c;
                  consistency_failed = res.consistency_failed + n;
                })
                (omega arith))
        | inr bad ↦ rw bad (
            check_consistencies_lem (y ∷ xs)
              (record res { consistency_failed = suc res.consistency_failed })
            ∙ ap
                (λ c. record res {
                  consistency_passed = res.consistency_passed + k;
                  consistency_failed = c;
                })
                (omega arith))
      ]

  -- The counters of the whole suite.
  check_all_lem :
      (records : List EntryRecord) (snapshots : List Bytes) (draws : List ℕ)
      → check_all log m st pb cp records snapshots draws
        ≡ add_negatives
            (add_consistencies
              (add_inclusions start_result
                (passing passes_record records)
                (failing passes_record records))
              (passing passes_pair (pairs_of snapshots))
              (failing passes_pair (pairs_of snapshots)))
            (passing (passes_draw records) draws)
            (failing (passes_draw records) draws)
  unfolding check_all
  check_all_lem records snapshots draws =
      check_negatives_lem records draws _
      ∙ ap
          (λ r.
            add_negatives r (passing (passes_draw records) draws)
              (failing (passes_draw records) draws))
          (check_consistencies_lem snapshots _
            ∙ ap
                (λ r.
                  add_consistencies r (passing passes_pair (pairs_of snapshots))
                    (failing passes_pair (pairs_of snapshots)))
                (check_inclusions_lem records start_result))

  pub check_all-totals :
      (records : List EntryRecord) (snapshots : List Bytes) (draws : List ℕ)
      → let res = check_all log m st pb cp records snapshots draws in
        (res.inclusion_total ≡ corr_total)
        × (res.consistency_total ≡ corr_cons_proofs)
        × (res.negative_total ≡ corr_neg_tests)
  check_all-totals records snapshots draws =
      rw (check_all_lem records snapshots draws) (refl, refl, refl)

  -- In every kind of check, what has passed and what has failed add up to the number of checks.
  pub check_all-counts :
      (records : List EntryRecord) (snapshots : List Bytes) (draws : List ℕ)
      → length records ≡ corr_total
      → length snapshots ≡ corr_snapshots
      → length draws ≡ corr_neg_tests
      → let res = check_all log m st pb cp records snapshots draws in
        (res.inclusion_passed + res.inclusion_failed ≡ res.inclusion_total)
        × (res.consistency_passed + res.consistency_failed ≡ res.consistency_total)
        × (res.negative_passed + res.negative_failed ≡ res.negative_total)
  check_all-counts records snapshots draws hr hs hd = rw (check_all_lem records snapshots draws) (
    omega (arith, passing-failing passes_record records),
    omega (arith, passing-failing passes_pair (pairs_of snapshots), length-pairs_of snapshots),
    omega (arith, passing-failing (passes_draw records) draws),
  )

  -- The program exits with 0 exactly if every record has an inclusion proof that is accepted,
  -- every snapshot is consistent with the next one, and every tampered token that was drawn is
  -- rejected.
  pub exit_code-AllPass :
      (records : List EntryRecord) (snapshots : List Bytes) (draws : List ℕ)
      → (exit_code (check_all log m st pb cp records snapshots draws) ≡ 0) ↔ (
          AllPass passes_record records
          × AllPass passes_pair (pairs_of snapshots)
          × AllPass (passes_draw records) draws)
  exit_code-AllPass records snapshots draws = (
    λ h.
        let (inc, cons, neg) =
          exit_code_sound _ (rw (check_all_lem records snapshots draws) at h) in
        (
          failing-AllPass passes_record records (omega arith),
          failing-AllPass passes_pair (pairs_of snapshots) (omega arith),
          failing-AllPass (passes_draw records) draws (omega arith),
        ),
    λ (inc, cons, neg). rw (check_all_lem records snapshots draws) (
        exit_code_complete _ (omega (arith, AllPass-failing passes_record records inc))
          (omega (arith, AllPass-failing passes_pair (pairs_of snapshots) cons))
          (omega (arith, AllPass-failing (passes_draw records) draws neg))),
  )
