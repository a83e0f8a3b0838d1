-- ===== src/Bench/Run/Proved.antt =====
-- What exit status 0 of cmd/sprint4 says of the log of its correctness suite.
use tessera_transparency.Base.{ℕ, ◌<◌, ◌≡◌, sym, [], Bytes, Bool, true, false, ok}
use tessera_transparency.Signer.Keys.{Ed25519, Signer}
use tessera_transparency.Log.{Log, Merkle, Checkpoint, Appender}
use tessera_transparency.Bench.Correctness.{CorrResult, corr_total, corr_batch}
use tessera_transparency.Bench.Reports.{Floats}
use tessera_transparency.Bench.Appending.{Choices, run_correctness}
use tessera_transparency.Log.Indexes.{IsSequential}
use tessera_transparency.Bench.Appending.Batches.{Finishes}
use tessera_transparency.Bench.Appending.Proved.{IsProved, run_correctness-IsProved}
use tessera_transparency.Bench.Run.{Phases, run, exit_status}
use tessera_transparency.Bench.Run.Files.{IsDisk}
use tessera_transparency.Bench.Run.Laws.{IsReported, run-again, run-fresh, exit_status_sound}

module _ (fl : Floats) (ph : Phases fl) (disk : IsDisk fl ph) (c : Ed25519) (log : Log)
    (a : Appender log) (m : Merkle) (s : Signer) (ch : Choices) (seq : IsSequential log a) where
  -- The suite that `run` calls is the modelled one, over a new log.
  abbrev pub RunsSuite : Type 0
  RunsSuite =
      (st st' : ph.State) (res : CorrResult)
      → ph.run_correctness st ≡ (st', ok res)
      → (new closed : log.State) × (seq.entries new ≡ [])
        × (run_correctness c log a m s ch new ≡ (closed, ok res))

  -- A log whose proofs of all entries of the suite have been verified.
  abbrev pub AllProved : Type 0
  AllProved =
      (closed : log.State) × (raw : Bytes) × (cp : Checkpoint) × (pb : log.Builder)
      × (log.unmarshal_checkpoint raw ≡ ok cp)
      × (log.new_proof_builder closed cp.size ≡ ok pb)
      × ((j : ℕ) → j < corr_total → IsProved c log a m s ch seq closed pb cp j)

  IsReported-AllProved :
      (before st : ph.State)
      → RunsSuite
      → Finishes ch corr_batch
      → IsReported fl ph disk 0 before st
      → AllProved
  IsReported-AllProved before st suite all r =
      let (new, closed, empty, ran) = suite r.start before r.res r.checked in
      let (raw, cp, pb, parsed, built, proved) =
        run_correctness-IsProved c log a m s ch seq new closed r.res all empty ran (sym r.coded) in
      (closed, raw, cp, pb, parsed, built, proved)

  -- Whatever state and result the correctness phase of the run ends with, the modelled suite ends
  -- with this result on a log that has no entry before. That log holds the entries in the order of
  -- the calls of `Add`, waiting for an entry does not end with another index than the entry's, and
  -- every goroutine of a batch finishes. If the program exits with 0, with or without `--fresh`, then
  -- the log has given a proof, for every entry from 0 to 999, of the leaf hash of its bytes at its own
  -- index in the tree of a checkpoint, and the library has accepted it.
  pub exit_status-AllProved :
      (fresh : Bool) (st : ph.State)
      → RunsSuite
      → Finishes ch corr_batch
      → exit_status fl ph (run fl ph fresh st) ≡ 0
      → AllProved
  exit_status-AllProved true st suite all h =
      let r = run fl ph true st in
      let (start, left, before, d, measured, reported, written) =
        run-fresh fl ph disk st r.0 0 (exit_status_sound fl ph disk r h) in
      IsReported-AllProved before r.0 suite all reported
  exit_status-AllProved false st suite all h =
      let r = run fl ph false st in
      let (before, reported, kept) =
        run-again fl ph disk st r.0 0 (exit_status_sound fl ph disk r h) in
      IsReported-AllProved before r.0 suite all reported
