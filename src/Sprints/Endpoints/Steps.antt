-- ===== src/Sprints/Endpoints/Steps.antt =====
-- `main` of cmd/sprint3 behind the set-up of its log and of its server: two signed tokens are
-- submitted, and what the server answers is checked. What `main` prints is left out.
use tessera_transparency.Base.{
  ℕ, List, [], ◌∷◌, ◌++◌, true, ◌==◌, if◌then◌else◌, none, some, Bytes, Result, ok, err, ◌>>=◌,
  wrap, codes, ltb,
}
use tessera_transparency.Base.Programs
use tessera_transparency.Base.Programs.{Program, lift, call}
use tessera_transparency.Text.Hex
use tessera_transparency.Text.Decimal
use tessera_transparency.Json.Value.{Members}
use tessera_transparency.Schema.Host.{HostToken}
use tessera_transparency.Schema.Binary.{BinaryToken, build}
use tessera_transparency.Signer.Keys.{Ed25519, Signer}
use tessera_transparency.Signer.Tokens.{Kind, host_kind, binary_kind, sign_token}
use tessera_transparency.Log.{Log, Merkle, Failure, hash_leaf}
use tessera_transparency.Api.Response.{Request, bad_request, not_found}
use tessera_transparency.Sprints.ThreeTokens.{short_hex}
use tessera_transparency.Sprints.Endpoints.{
  Stop, fatal, unsigned, inclusion_failed, consistency_failed, verifier_failed, expected, panicked,
  Answer, Numbers, get, as_text, as_uint, as_hashes, long_text, get_request, prove_request,
  far_request, empty_request, do_submit, do_get,
}

-- The seconds that the clock shows when each token is made.
pub record Times : Type 0 where
  pub boot : ℕ
  pub built : ℕ

-- A token in the log, as `main` looks it up.
pub record Entry : Type 0 where
  pub name : Bytes
  pub index : ℕ
  pub leaf_hash : Bytes

module _ (m : Merkle) where
  abbrev cfg_hash : Bytes
  cfg_hash = m.sha256 (codes "baseline-config-v1.0")

  abbrev commit_hash : Bytes
  commit_hash = m.sha256 (codes "git-commit-sprint3")

  abbrev pub htt : ℕ → HostToken
  htt now = record {
    token_id = codes "htt-sprint3-001";
    host_id = codes "host-" ++ short_hex cfg_hash;
    attestation_service_id = codes "sprint3-attest-svc";
    boot_timestamp_utc = now;
    tpm_measurement_hash = some (m.sha256 (codes "synthetic-tpm-pcr-values"));
    baseline_config_hash = some cfg_hash;
    secure_boot_verified = true;
    baseline_match = true;
    signature = none;
  }

  abbrev pub btt_build : ℕ → BinaryToken
  btt_build now = record {
    token_id = codes "btt-build-sprint3-001";
    binary_hash = some (m.sha256 (codes "example-binary-v3.0.0"));
    event_type = build;
    issuer_id = codes "sprint3-build-svc";
    event_timestamp = now;
    source_commit_hash = some commit_hash;
    build_provenance_uri = codes "https://example.com/slsa/v1?sha=" ++ Hex.encode commit_hash;
    verification_evidence_hash = none;
    signature = none;
  }

-- Behind the end of `main` and behind a panic the deferred `shutdown` runs; `fatalf` exits at once.
abbrev pub at_end :
    {S : Type 0}
    → (S → S × Result Failure (Unit {0}))
    → S × Result Stop (Unit {0})
    → S × Result Stop (Unit {0})
at_end shutdown (st, ok u) = call fatal shutdown st
at_end shutdown (st, err panicked) =
    let (st', r) = shutdown st in (st', wrap fatal r >>= λ _. err panicked)
at_end shutdown (st, err e) = (st, err e)

-- The status that a request must be answered with.
unfoldable pub expect : ℕ → Answer → Result Stop (Unit {0})
expect status a = if a.status == status then ok tt else err (expected status a.status)

abbrev pub growth_request : ℕ → ℕ → Request
growth_request from to =
    get_request (codes "/log/consistency")
      ((codes "from", Decimal.format from) ∷ (codes "to", Decimal.format to) ∷ [])

unfoldable pub sign : Ed25519 → Signer → (k : Kind) → k.Token → Result Stop Bytes
sign c s k t = wrap unsigned (sign_token c k s t).1

module _ (nm : Numbers) where
  -- What is read of the answer to the first token.
  unfoldable pub host_entry : Members → Result Stop Entry
  host_entry ms = long_text (get (codes "leaf_hash") ms) >>= λ leaf.
      as_uint nm (get (codes "index") ms) >>= λ index.
      ok (record { name = codes "HTT"; index = index; leaf_hash = Hex.decode_front leaf })

  -- The leaf hash of the second token is computed here.
  unfoldable pub build_entry : Merkle → Bytes → Members → Result Stop Entry
  build_entry m token ms = as_uint nm (get (codes "index") ms) >>= λ index.
      ok (record { name = codes "BTT BUILD"; index = index; leaf_hash = hash_leaf m token })

  unfoldable pub old_head : Members → Result Stop (ℕ × Bytes)
  old_head ms = as_text (get (codes "root") ms) >>= λ root.
      as_uint nm (get (codes "tree_size") ms) >>= λ size. ok (size, Hex.decode_front root)

module _ (log : Log) (http : Request → Program log.State Failure Answer) where
  -- The two requests that the server must refuse.
  unfoldable pub negative_tests : Program log.State Stop (Unit {0})
  unfolding expect
  negative_tests = Programs.◌>>=◌ (call fatal (http far_request)) λ a.
      Programs.◌>>=◌ (lift (expect not_found a))
        λ _. Programs.◌>>=◌ (call fatal (http empty_request)) λ b. lift (expect bad_request b)

module _ (log : Log) (m : Merkle) (nm : Numbers)
    (http : Request → Program log.State Failure Answer) where
  -- GET /log/sth: the size and the root of the tree.
  unfoldable pub tree_head : Program log.State Stop (ℕ × Bytes)
  tree_head = Programs.◌>>=◌ (do_get log nm http (get_request (codes "/log/sth") [])) λ ms. lift (
      as_uint nm (get (codes "size") ms) >>= λ size.
      long_text (get (codes "root") ms) >>= λ root. ok (size, Hex.decode_front root))

  -- The loop over the tokens.
  unfoldable pub prove_entries : ℕ → Bytes → List Entry → Program log.State Stop (Unit {0})
  prove_entries size root [] = lift (ok tt)
  prove_entries size root (e ∷ es) =
      Programs.◌>>=◌ (do_get log nm http (prove_request (Decimal.format e.index))) λ ms.
        Programs.◌>>=◌
          (lift (
            as_hashes (get (codes "proof") ms) >>= λ proof.
            wrap (inclusion_failed e.name)
              (m.verify_inclusion e.index size e.leaf_hash proof root)))
          λ _. prove_entries size root es

  -- The tree that the first answer tells of, and the current one.
  unfoldable pub check_growth : ℕ → Bytes → ℕ → Bytes → Program log.State Stop (Unit {0})
  check_growth old_size old_root size root =
      if ltb old_size size
      then (Programs.◌>>=◌ (do_get log nm http (growth_request old_size size)) λ ms. lift (
          as_hashes (get (codes "proof") ms) >>= λ proof.
          wrap consistency_failed (m.verify_consistency old_size size proof old_root root)))
      else lift (ok tt)

module _ (c : Ed25519) (log : Log) (m : Merkle) (s : Signer) (nm : Numbers)
    (http : Request → Program log.State Failure Answer)
    (shutdown : log.State → log.State × Result Failure (Unit {0}))
    (verifier : ℕ → Bytes → Program log.State Failure (Unit {0})) where
  unfoldable pub submit_host : ℕ → Program log.State Stop (Entry × Members)
  unfolding sign host_entry
  submit_host now = Programs.◌>>=◌ (lift (sign c s host_kind (htt m now))) λ token.
      Programs.◌>>=◌ (do_submit log nm http token) λ ms. lift (host_entry nm ms >>= λ e. ok (e, ms))

  unfoldable pub submit_build : ℕ → Program log.State Stop Entry
  unfolding sign build_entry
  submit_build now =
      Programs.◌>>=◌ (lift (sign c s binary_kind (btt_build m now)))
        λ token. Programs.◌>>=◌ (do_submit log nm http token) λ ms. lift (build_entry nm m token ms)

  -- The verifier is run for the first token.
  unfoldable pub run_verifier : Entry → Program log.State Stop (Unit {0})
  run_verifier e = call verifier_failed (verifier e.index (Hex.encode e.leaf_hash))

  -- What `main` does before its deferred calls.
  unfoldable pub check_all : Times → Program log.State Stop (Unit {0})
  unfolding submit_host submit_build tree_head prove_entries check_growth old_head negative_tests
      run_verifier
  check_all now = Programs.◌>>=◌ (submit_host now.boot) λ (host, ms).
      Programs.◌>>=◌ (submit_build now.built) λ built.
        Programs.◌>>=◌ (tree_head log m nm http) λ (size, root).
          Programs.◌>>=◌ (prove_entries log m nm http size root (host ∷ built ∷ [])) λ _.
            Programs.◌>>=◌ (lift (old_head nm ms)) λ (old_size, old_root).
              Programs.◌>>=◌ (check_growth log m nm http old_size old_root size root)
                λ _. Programs.◌>>=◌ (negative_tests log http) λ _. run_verifier host

  unfoldable pub main : Times → Program log.State Stop (Unit {0})
  unfolding check_all
  main now st = at_end shutdown (check_all now st)
