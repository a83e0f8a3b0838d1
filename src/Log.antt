-- ===== src/Log.antt =====
-- The third-party libraries behind the program: the Tessera appender, its reader and its tile
-- fetcher, the checkpoint format, and the Merkle proofs of transparency-dev. They are parameters.
pub mod Indexes
use tessera_transparency.Base.{ℕ, ◌∷◌, List, Bytes, Result}

-- `logfmt.Checkpoint`, the fields that the program reads.
pub record Checkpoint : Type 0 where
  pub size : ℕ
  pub hash : Bytes

-- An error of a library is its text.
abbrev pub Failure : Type 0
Failure = Bytes

pub record Log : Type 1 where
  pub State : Type 0
  -- `tessera.ProofBuilder`
  pub Builder : Type 0
  -- `appender.Add` and `awaiter.Await`: the index of the entry and the checkpoint that covers it.
  -- The entry may have been added also where waiting for it fails.
  pub append : State → Bytes → State × Result Failure (ℕ × Bytes)
  pub read_checkpoint : State → Result Failure Bytes
  pub unmarshal_checkpoint : Bytes → Result Failure Checkpoint
  pub new_proof_builder : State → ℕ → Result Failure Builder
  pub inclusion_proof : State → Builder → ℕ → Result Failure (List Bytes)
  pub consistency_proof : State → Builder → ℕ → ℕ → Result Failure (List Bytes)

-- `crypto/sha256`, and `proof.VerifyInclusion` and `proof.VerifyConsistency` over the hasher of
-- `merkle/rfc6962`.
pub record Merkle : Type 0 where
  pub sha256 : Bytes → Bytes
  pub verify_inclusion : ℕ → ℕ → Bytes → List Bytes → Bytes → Result Failure (Unit {0})
  pub verify_consistency : ℕ → ℕ → List Bytes → Bytes → Bytes → Result Failure (Unit {0})

-- `HashLeaf` of RFC 6962.
abbrev pub hash_leaf : Merkle → Bytes → Bytes
hash_leaf m leaf = m.sha256 (0 ∷ leaf)

-- `appender.Add` and `awaiter.Await` apart, for a program that waits for many entries at once. Time
-- passes while an entry is waited for.
pub record Appender (log : Log) : Type 1 where
  pub Future : Type 0
  pub add : log.State → Bytes → log.State × Future
  pub await : log.State → Future → log.State × Result Failure (ℕ × Bytes)
  pub shutdown : log.State → log.State × Result Failure (Unit {0})
