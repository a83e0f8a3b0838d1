-- ===== src/Bench/Appending/Proved.antt =====
-- What exit code 0 of the correctness suite says of the log.
use tessera_transparency.Base.{
  ℕ, zero, suc, ◌-◌, ◌<◌, ◌≡◌, ap, ◌∙◌, List, [], ◌∷◌, Bytes, Bool, true, ok, length, replicate,
  get_or, arith, inl, inr, Result-cases, wrap_bind_ok, ok-injective,
}
use mathlib.Core.Path.{subst}
use tessera_transparency.Base.Programs.{continue, continue_ok}
use tessera_transparency.Signer.Keys.{Ed25519, Signer}
use tessera_transparency.Log.{Log, Merkle, Checkpoint, Appender, hash_leaf}
use tessera_transparency.Bench.Correctness.{
  EntryRecord, CorrResult, zero_record, check_record, check_all, exit_code, corr_total, corr_batch,
  corr_snapshots,
}
use tessera_transparency.Bench.Correctness.Counting.{AllPass}
use tessera_transparency.Bench.Correctness.Laws.{exit_code-AllPass}
use tessera_transparency.Log.Indexes.{IsSequential}
use tessera_transparency.Bench.Appending.{Choices, append_batches, check_phase, run_correctness}
use tessera_transparency.Bench.Appending.Laws.{record_at, record_of, token_of}
use tessera_transparency.Bench.Appending.Batches.{Finishes, AreRight, append_batches-records}

module _ (c : Ed25519) (log : Log) (a : Appender log) (m : Merkle) (s : Signer) (ch : Choices)
    (seq : IsSequential log a) where
  record_at-AllPass :
      (p : EntryRecord → Bool) (rs : List EntryRecord) (j : ℕ)
      → AllPass p rs
      → j < length rs
      → p (record_at rs j) ≡ true
  record_at-AllPass p [] j all h = absurd (omega arith)
  record_at-AllPass p (r ∷ rs) zero (good, all) h = good
  record_at-AllPass p (r ∷ rs) (suc j) (good, all) h = record_at-AllPass p rs j all (omega arith)

  -- Entry `j` is proved: the log gave a proof of its leaf hash at index `j`, in the tree of a
  -- checkpoint, and the library accepted it.
  abbrev pub IsProved : log.State → log.Builder → Checkpoint → ℕ → Type 0
  IsProved st pb cp j =
      (proof : List Bytes) × (log.inclusion_proof st pb j ≡ ok proof)
      × (m.verify_inclusion j cp.size (hash_leaf m (token_of c log a m s ch.now j)) proof cp.hash
          ≡ ok tt)

  check_record_sound :
      (st : log.State) (pb : log.Builder) (cp : Checkpoint) (j : ℕ)
      → check_record log m st pb cp (record_of c log a m s ch.now j) ≡ true
      → IsProved st pb cp j
  unfolding check_record
  check_record_sound st pb cp j h = elim (Result-cases (log.inclusion_proof st pb j)) [
    | inr (e, unproved) ↦ absurd (ground arith)
    | inl (proof, proved) ↦
        elim (Result-cases (
          m.verify_inclusion j cp.size (hash_leaf m (token_of c log a m s ch.now j)) proof
            cp.hash)) [
              | inr (e, wrong) ↦ absurd (ground arith)
              | inl (tt, verified) ↦ (proof, proved, verified)
            ]
  ]

  -- What the checks over the closed log have seen.
  abbrev Checked : List EntryRecord → List Bytes → CorrResult → log.State → Type 0
  Checked records snapshots res st =
      (cp : Checkpoint) × (pb : log.Builder) × (log.unmarshal_checkpoint
          (get_or snapshots (corr_snapshots - 1) [])
        ≡ ok cp)
      × (log.new_proof_builder st cp.size ≡ ok pb)
      × (check_all log m st pb cp records snapshots ch.draws ≡ res)

  check_phase_sound :
      (st st' : log.State) (records : List EntryRecord) (snapshots : List Bytes) (res : CorrResult)
      → check_phase c log a m s ch.draws records snapshots st ≡ (st', ok res)
      → Checked records snapshots res st'
  unfolding check_phase
  check_phase_sound st st' records snapshots res h =
      let closed = (a.shutdown st).0 in
      let (cp, parsed, h1) =
        wrap_bind_ok _ (log.unmarshal_checkpoint (get_or snapshots (corr_snapshots - 1) [])) _
          (ap (λ p. p.1) h) in
      let (pb, built, h2) = wrap_bind_ok _ (log.new_proof_builder closed cp.size) _ h1 in
      subst (Checked records snapshots res) (ap (λ p. p.0) h)
        (cp, pb, parsed, built, ok-injective h2)

  -- Right records that pass the checks are proved entries.
  Checked-IsProved :
      (st : log.State) (records : List EntryRecord) (snapshots : List Bytes) (res : CorrResult)
      → length records ≡ corr_total
      → AreRight c log a m s ch seq corr_total records
      → exit_code res ≡ 0
      → Checked records snapshots res st
      → (raw : Bytes) × (cp : Checkpoint) × (pb : log.Builder) × (log.unmarshal_checkpoint raw
          ≡ ok cp)
        × (log.new_proof_builder st cp.size ≡ ok pb)
        × ((j : ℕ) → j < corr_total → IsProved st pb cp j)
  Checked-IsProved st records snapshots res long right passed (cp, pb, parsed, built, counted) =
      let (inc, cons, neg) =
        (exit_code-AllPass log m st pb cp records snapshots ch.draws).0
          (ap exit_code counted ∙ passed) in
      (
        get_or snapshots (corr_snapshots - 1) [],
        cp,
        pb,
        parsed,
        built,
        λ j h. check_record_sound st pb cp j (
            subst (λ r. check_record log m st pb cp r ≡ true) (right j h)
              (record_at-AllPass (check_record log m st pb cp) records j inc
                (omega (arith, long)))),
      )

  -- The suite behind its appends.
  pub run_correctness_next :
      (st st1 : log.State) (records : List EntryRecord) (snapshots : List Bytes)
      → append_batches c log a m s ch corr_batch corr_snapshots 0
          (replicate corr_total zero_record)
          st
        ≡ (st1, ok (records, snapshots))
      → run_correctness c log a m s ch st ≡ check_phase c log a m s ch.draws records snapshots st1
  unfolding run_correctness
  run_correctness_next st st1 records snapshots appended =
      ap
        (λ r.
          continue r
            (λ (p : List EntryRecord × List Bytes). check_phase c log a m s ch.draws p.0 p.1))
        appended

  -- A log holds the entries in the order of the calls of `Add`, waiting for an entry does not end
  -- with another index than the entry's, no entry is in the log before, and every goroutine of a
  -- batch finishes. If the suite ends without stopping at an error, and the program exits with 0 for
  -- its result, then the log has given a proof, for every entry from 0 to 999, of the leaf hash of
  -- its bytes at its own index in the tree of a checkpoint, and the library has accepted it, whatever
  -- the order in which the goroutines finished.
  pub run_correctness-IsProved :
      (st st' : log.State) (res : CorrResult)
      → Finishes ch corr_batch
      → seq.entries st ≡ []
      → run_correctness c log a m s ch st ≡ (st', ok res)
      → exit_code res ≡ 0
      → (raw : Bytes) × (cp : Checkpoint) × (pb : log.Builder) × (log.unmarshal_checkpoint raw
          ≡ ok cp)
        × (log.new_proof_builder st' cp.size ≡ ok pb)
        × ((j : ℕ) → j < corr_total → IsProved st' pb cp j)
  unfolding run_correctness
  run_correctness-IsProved st st' res all empty run passed =
      let one =
        append_batches c log a m s ch corr_batch corr_snapshots 0 (replicate corr_total zero_record)
          st in
      let ((records, snapshots), appended, more) = continue_ok one _ run in
      let (long, right, count, held) =
        append_batches-records c log a m s ch seq st one.0 records snapshots all empty appended in
      Checked-IsProved st' records snapshots res long right passed
        (check_phase_sound one.0 st' records snapshots res more)
