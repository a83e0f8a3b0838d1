-- ===== src/Bench/Correctness.antt =====
-- `runCorrectnessPhase` behind the appends, with its counters, and the exit code of `run`.
pub mod Counting
pub mod Laws
pub mod Meaning
use tessera_transparency.Base.{
  ℕ, zero, suc, ◌-◌, ◌/◌, ◌<◌, List, [], ◌∷◌, Option, none, some, Bytes, Result, ok, err, ◌>>=◌,
  wrap, length, get_or, set, replicate, ltb, ◌==◌, if◌then◌else◌, ◌||◌, Bool, true, false,
}
use tessera_transparency.Base.Flips.{flip_at}
use tessera_transparency.Log.{Log, Merkle, Checkpoint, Failure, hash_leaf}

-- `entryRecord`; the token data is nil in a record that was not written.
pub record EntryRecord : Type 0 where
  pub log_index : ℕ
  pub token_data : Option Bytes
  pub leaf_hash : Bytes

abbrev pub zero_record : EntryRecord
zero_record = record { log_index = 0; token_data = none; leaf_hash = [] }

-- `corrResult`
pub record CorrResult : Type 0 where
  pub inclusion_total : ℕ
  pub inclusion_passed : ℕ
  pub inclusion_failed : ℕ
  pub consistency_total : ℕ
  pub consistency_passed : ℕ
  pub consistency_failed : ℕ
  pub negative_total : ℕ
  pub negative_passed : ℕ
  pub negative_failed : ℕ

abbrev pub corr_total : ℕ
corr_total = 1000

abbrev pub corr_batch : ℕ
corr_batch = 100

abbrev pub corr_snapshots : ℕ
corr_snapshots = corr_total / corr_batch

abbrev pub corr_cons_proofs : ℕ
corr_cons_proofs = corr_snapshots - 1

abbrev pub corr_neg_tests : ℕ
corr_neg_tests = 50

-- The result before the proofs are checked.
abbrev pub start_result : CorrResult
start_result = record {
  inclusion_total = corr_total;
  inclusion_passed = 0;
  inclusion_failed = 0;
  consistency_total = corr_cons_proofs;
  consistency_passed = 0;
  consistency_failed = 0;
  negative_total = corr_neg_tests;
  negative_passed = 0;
  negative_failed = 0;
}

-- What the goroutine of an entry writes when the entry is confirmed.
unfoldable pub store_record : Merkle → ℕ → Bytes → List EntryRecord → List EntryRecord
store_record m idx token rs =
    set rs idx (record { log_index = idx; token_data = some token; leaf_hash = hash_leaf m token })

-- A check of the suite: it fails on any error.
abbrev passes {ℓ} : {A : Type ℓ} → Result Failure A → Bool
passes (ok a) = true
passes (err e) = false

-- `tampered[len(tampered)/2] ^= 0xFF` on a copy of the token data, which is not empty.
unfoldable pub tamper : Bytes → Bytes
tamper token = flip_at (length token / 2) token

module _ (log : Log) (m : Merkle) where
  -- The proof of the entry's place in the final tree, for a leaf hash.
  prove_record : log.State → log.Builder → Checkpoint → ℕ → Bytes → Bool
  prove_record st pb cp idx leaf =
      passes (
        log.inclusion_proof st pb idx >>= λ proof.
        m.verify_inclusion idx cp.size leaf proof cp.hash)

  unfoldable pub check_record : log.State → log.Builder → Checkpoint → EntryRecord → Bool
  unfolding prove_record
  check_record st pb cp r = elim r.token_data [
    | none ↦ false
    | some token ↦ prove_record st pb cp r.log_index r.leaf_hash
  ]

  -- The loop over the records.
  unfoldable pub check_inclusions :
      log.State → log.Builder → Checkpoint → List EntryRecord → CorrResult → CorrResult
  unfolding check_record
  check_inclusions st pb cp [] res = res
  check_inclusions st pb cp (r ∷ rs) res = check_inclusions st pb cp rs (
      if check_record st pb cp r
      then record res { inclusion_passed = suc res.inclusion_passed }
      else record res { inclusion_failed = suc res.inclusion_failed })

  -- One pair of snapshots that stand behind each other.
  unfoldable pub check_pair : log.State → Bytes → Bytes → Bool
  check_pair st from to = passes (
      log.unmarshal_checkpoint from >>= λ from_cp. log.unmarshal_checkpoint to >>= λ to_cp.
      if from_cp.size == to_cp.size
      then ok tt
      else (log.new_proof_builder st to_cp.size >>= λ pb.
          log.consistency_proof st pb from_cp.size to_cp.size >>= λ proof.
          m.verify_consistency from_cp.size to_cp.size proof from_cp.hash to_cp.hash))

  -- The loop over the snapshots, each with the next one.
  unfoldable pub check_consistencies : log.State → List Bytes → CorrResult → CorrResult
  unfolding check_pair
  check_consistencies st [] res = res
  check_consistencies st (from ∷ []) res = res
  check_consistencies st (from ∷ to ∷ more) res = check_consistencies st (to ∷ more) (
      if check_pair st from to
      then record res { consistency_passed = suc res.consistency_passed }
      else record res { consistency_failed = suc res.consistency_failed })

  -- A negative test passes if the tampered token is rejected.
  unfoldable pub rejects : log.State → log.Builder → Checkpoint → ℕ → Bytes → Bool
  rejects st pb cp idx token = elim (log.inclusion_proof st pb idx) [
    | err e ↦ false
    | ok proof ↦ elim (m.verify_inclusion idx cp.size (hash_leaf m (tamper token)) proof cp.hash) [
      | err e ↦ true
      | ok u ↦ false
    ]
  ]

  unfoldable pub check_negative : log.State → log.Builder → Checkpoint → EntryRecord → Bool
  unfolding rejects
  check_negative st pb cp r = elim r.token_data [
    | none ↦ false
    | some token ↦ rejects st pb cp r.log_index token
  ]

  -- The loop of the negative tests, over the random indexes that it draws.
  unfoldable pub check_negatives :
      log.State → log.Builder → Checkpoint → List EntryRecord → List ℕ → CorrResult → CorrResult
  unfolding check_negative
  check_negatives st pb cp rs [] res = res
  check_negatives st pb cp rs (i ∷ draws) res = check_negatives st pb cp rs draws (
      if check_negative st pb cp (get_or rs i zero_record)
      then record res { negative_passed = suc res.negative_passed }
      else record res { negative_failed = suc res.negative_failed })

  -- The suite behind the appends: the records, the snapshots and the draws of the negative tests.
  unfoldable pub check_all :
      log.State → log.Builder → Checkpoint → List EntryRecord → List Bytes → List ℕ → CorrResult
  unfolding check_inclusions check_consistencies check_negatives
  check_all st pb cp records snapshots draws =
      check_negatives st pb cp records draws
        (check_consistencies st snapshots (check_inclusions st pb cp records start_result))

-- The end of `run`.
unfoldable pub exit_code : CorrResult → ℕ
exit_code res =
    if ltb 0 res.inclusion_failed || ltb 0 res.consistency_failed || ltb 0 res.negative_failed
    then 1
    else 0
