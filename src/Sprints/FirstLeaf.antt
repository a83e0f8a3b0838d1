-- ===== src/Sprints/FirstLeaf.antt =====
-- `main` of cmd/sprint1 behind the set-up of its log: one leaf, its inclusion proof, and a tampered
-- leaf.
pub mod Laws
use tessera_transparency.Base.{ℕ, ◌∷◌, [], Bytes, Result, ok, err, ◌>>=◌, wrap, codes}
use tessera_transparency.Log.{Log, Merkle, Checkpoint, Failure, hash_leaf}

pub data Stop : Type 0 where
  panicked : Failure → Stop
  inclusion_failed : Stop
  tampering_accepted : Stop

abbrev pub leaf_data : Bytes
leaf_data = codes "dissertation-prototype: first leaf, sprint 1 milestone"

abbrev pub tampered_data : Bytes
tampered_data = codes "tampered data, not the original leaf"

module _ (log : Log) (m : Merkle)
    (shutdown : log.State → log.State × Result Failure (Unit {0})) where
  -- The tampered leaf must be refused.
  refuse : Result Failure (Unit {0}) → Result Stop (Unit {0})
  refuse (ok u) = err tampering_accepted
  refuse (err e) = ok tt

  -- The part behind `shutdown`.
  unfoldable pub check_leaf : log.State → ℕ → Bytes → Result Stop (Unit {0})
  unfolding refuse
  check_leaf st idx raw = wrap panicked (log.unmarshal_checkpoint raw) >>= λ cp.
      wrap panicked (log.new_proof_builder st cp.size) >>= λ pb.
      wrap panicked (log.inclusion_proof st pb idx) >>= λ proof.
      wrap (λ _. inclusion_failed)
        (m.verify_inclusion idx cp.size (hash_leaf m leaf_data) proof cp.hash)
      >>= λ _. refuse (m.verify_inclusion idx cp.size (hash_leaf m tampered_data) proof cp.hash)

  after_shutdown : ℕ → Bytes → log.State × Result Failure (Unit {0}) → Result Stop (Unit {0})
  unfolding check_leaf
  after_shutdown idx raw (st, err e) = err (panicked e)
  after_shutdown idx raw (st, ok u) = check_leaf st idx raw

  after_append : log.State × Result Failure (ℕ × Bytes) → Result Stop (Unit {0})
  unfolding after_shutdown
  after_append (st, err e) = err (panicked e)
  after_append (st, ok (idx, raw)) = after_shutdown idx raw (shutdown st)

  unfoldable pub main : log.State → Result Stop (Unit {0})
  unfolding after_append
  main st = after_append (log.append st leaf_data)
