-- ===== src/Api/Handlers/Reads.antt =====
-- `handleProve` and `handleSTH`.
use tessera_transparency.Base.{ℕ, ◌≤◌, ◌≡◌, ◌↔◌, arith, ok, codes}
use tessera_transparency.Log.{Log, Merkle, Checkpoint}
use tessera_transparency.Api.Response.{Request, not_found}
use tessera_transparency.Api.Handlers.{read_cp, parse_uint, handle_prove}

module _ (log : Log) (m : Merkle) where
  -- Where the index is a number and the checkpoint can be read, the answer is 404 exactly for an
  -- index that the checkpoint does not cover.
  pub handle_prove-not_found :
      (r : Request) (st : log.State) (idx : ℕ) (cp : Checkpoint)
      → parse_uint r (codes "index") ≡ ok idx
      → read_cp log m st ≡ ok cp
      → ((handle_prove log m r st).status ≡ not_found) ↔ (cp.size ≤ idx)
  unfolding handle_prove
  handle_prove-not_found r st idx cp parsed read = (λ h. found_lem h, λ h. ground arith)
    where
      found_lem : (handle_prove log m r st).status ≡ not_found → cp.size ≤ idx
      found_lem h = ground arith
