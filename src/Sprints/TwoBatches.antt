-- ===== src/Sprints/TwoBatches.antt =====
-- `main` of cmd/sprint1b behind the set-up of its log: two batches, three inclusion proofs, one
-- consistency proof and a forged root. A panic and an exit with 1 are told apart.
pub mod Laws
use tessera_transparency.Base.{
  ℕ, Option, none, some, List, [], ◌∷◌, ◌++◌, Bytes, Result, ok, err, ◌>>=◌, wrap, codes, map,
  get_or, length,
}
use tessera_transparency.Text.Decimal
use tessera_transparency.Log.{Log, Merkle, Checkpoint, Failure, Appender, hash_leaf}

pub data Stop : Type 0 where
  panicked : Failure → Stop
  no_future : Stop
  inclusion_failed : ℕ → Stop
  consistency_failed : Stop
  forgery_accepted : Stop

-- `fmt.Sprintf("entry-%02d: batch1", i)`, for one digit.
abbrev entry : Bytes → ℕ → Bytes
entry batch i = codes "entry-0" ++ Decimal.format i ++ codes ": " ++ batch

abbrev pub batch1 : List Bytes
batch1 = map (entry (codes "batch1")) (0 ∷ 1 ∷ 2 ∷ 3 ∷ 4 ∷ [])

abbrev pub batch2 : List Bytes
batch2 = map (entry (codes "batch2")) (5 ∷ 6 ∷ 7 ∷ 8 ∷ 9 ∷ [])

module _ (log : Log) (m : Merkle) (a : Appender log) where
  -- `leafHashes`
  abbrev pub leaf_hashes : List Bytes
  leaf_hashes = map (hash_leaf m) (batch1 ++ batch2)

  -- `mustCheckpoint`
  unfoldable pub must_checkpoint : Bytes → Result Stop Checkpoint
  must_checkpoint raw = wrap panicked (log.unmarshal_checkpoint raw)

  -- The loop over the entries of a batch; `lastIdx` is nil before the first one.
  unfoldable pub add_all : List Bytes → Option a.Future → log.State → log.State × Option a.Future
  add_all [] last_idx st = (st, last_idx)
  add_all (leaf ∷ more) last_idx st =
      let (st', future) = a.add st leaf in add_all more (some future) st'

  -- Waiting for the last entry of a batch, and its checkpoint.
  await_batch : log.State × Option a.Future → log.State × Result Stop Checkpoint
  unfolding must_checkpoint
  await_batch (st, none) = (st, err no_future)
  await_batch (st, some future) =
      let (st', r) = a.await st future in
      (st', wrap panicked r >>= λ (idx, raw). must_checkpoint raw)

  -- A batch, up to its checkpoint. It is not empty: the future that is awaited is one of its own.
  unfoldable pub run_batch : List Bytes → log.State → log.State × Result Stop Checkpoint
  unfolding add_all await_batch
  run_batch entries st = await_batch (add_all entries none st)

  -- The loop over the indexes.
  unfoldable pub check_indexes :
      log.State → log.Builder → Checkpoint → List ℕ → Result Stop (Unit {0})
  check_indexes st pb cp [] = ok tt
  check_indexes st pb cp (idx ∷ more) = wrap panicked (log.inclusion_proof st pb idx) >>= λ proof.
      wrap (λ _. inclusion_failed idx)
        (m.verify_inclusion idx cp.size (get_or leaf_hashes idx []) proof cp.hash)
      >>= λ _. check_indexes st pb cp more

  abbrev pub fake_root : Bytes
  fake_root = hash_leaf m (codes "not the real checkpoint 1 root")

  -- The forged root must be refused.
  refused : Result Failure (Unit {0}) → Result Stop (Unit {0})
  refused (ok u) = err forgery_accepted
  refused (err e) = ok tt

  unfoldable pub check_extension :
      log.State → log.Builder → Checkpoint → Checkpoint → Result Stop (Unit {0})
  unfolding refused
  check_extension st pb cp1 cp2 =
      wrap panicked (log.consistency_proof st pb cp1.size cp2.size) >>= λ proof.
      wrap (λ _. consistency_failed)
        (m.verify_consistency cp1.size cp2.size proof cp1.hash cp2.hash)
      >>= λ _. refused (m.verify_consistency cp1.size cp2.size proof fake_root cp2.hash)

  -- The part behind `shutdown`.
  unfoldable pub check_proofs : log.State → Checkpoint → Checkpoint → Result Stop (Unit {0})
  unfolding check_indexes check_extension
  check_proofs st cp1 cp2 = wrap panicked (log.new_proof_builder st cp2.size) >>= λ pb.
      check_indexes st pb cp2 (0 ∷ 4 ∷ 9 ∷ []) >>= λ _. check_extension st pb cp1 cp2

  after_shutdown :
      Checkpoint → Checkpoint → log.State × Result Failure (Unit {0}) → Result Stop (Unit {0})
  unfolding check_proofs
  after_shutdown cp1 cp2 (st, err e) = err (panicked e)
  after_shutdown cp1 cp2 (st, ok u) = check_proofs st cp1 cp2

  after_second : Checkpoint → log.State × Result Stop Checkpoint → Result Stop (Unit {0})
  unfolding after_shutdown
  after_second cp1 (st, err e) = err e
  after_second cp1 (st, ok cp2) = after_shutdown cp1 cp2 (a.shutdown st)

  after_first : log.State × Result Stop Checkpoint → Result Stop (Unit {0})
  unfolding after_second run_batch
  after_first (st, err e) = err e
  after_first (st, ok cp1) = after_second cp1 (run_batch batch2 st)

  unfoldable pub main : log.State → Result Stop (Unit {0})
  unfolding after_first
  main st = after_first (run_batch batch1 st)
