-- ===== src/Sprints/ThreeTokens.antt =====
-- `main` of cmd/sprint2 behind the set-up of its log: three signed tokens are checked, appended and
-- proved, a tampered token and a forged signature are refused. What it prints is left out. The clock
-- gives `now` for each token, in seconds.
pub mod Laws
pub mod Passing
pub mod Tokens
use tessera_transparency.Base.{
  ℕ, ◌/◌, List, [], ◌∷◌, ◌++◌, true, none, some, Bytes, Result, ok, err, ◌>>=◌, wrap, codes, length,
  take, ltb, if◌then◌else◌,
}
use tessera_transparency.Base.Programs
use tessera_transparency.Base.Programs.{Program, lift, call}
use tessera_transparency.Base.Flips.{flip_at}
use tessera_transparency.Text.Hex
use tessera_transparency.Schema.Fields.{JsonError, bytes_of}
use tessera_transparency.Schema.Host
use tessera_transparency.Schema.Host.{HostToken}
use tessera_transparency.Schema.Binary.{BinaryToken, build, deployment}
use tessera_transparency.Signer.Keys.{Ed25519, Signer}
use tessera_transparency.Signer.Tokens.{
  Kind, host_kind, binary_kind, sign_token, verify_token, verify_htt, VerifyError,
}
use tessera_transparency.Log.{Log, Merkle, Checkpoint, Failure, hash_leaf}

-- `nil_token` is the panic on the nil that a failed decoder gives, and `out_of_range` the one on an
-- index beyond a slice.
pub data Stop : Type 0 where
  fatal : Failure → Stop
  unsigned : JsonError → Stop
  nil_token : Stop
  out_of_range : Stop
  self_check : VerifyError → Stop
  inclusion_failed : Bytes → Stop
  consistency_failed : Stop
  tampering_accepted : Stop
  forgery_accepted : Stop

-- The seconds that the clock shows when each token is made.
pub record Times : Type 0 where
  pub boot : ℕ
  pub built : ℕ
  pub deployed : ℕ

-- `shortHex`, of a hash: its first six bytes.
unfoldable pub short_hex : Bytes → Bytes
short_hex b = Hex.encode (take 6 b)

module _ (m : Merkle) where
  abbrev tpm_hash : Bytes
  tpm_hash = m.sha256 (codes "synthetic-tpm-quote-pcr0-pcr1-pcr7")

  abbrev cfg_hash : Bytes
  cfg_hash = m.sha256 (codes "approved-baseline-config-v1.2.3")

  abbrev bin_hash : Bytes
  bin_hash = m.sha256 (codes "example-binary-v2.1.0-linux-amd64")

  abbrev commit_hash : Bytes
  commit_hash = m.sha256 (codes "git-commit-abc123def456")

  abbrev evidence_hash : Bytes
  evidence_hash = m.sha256 (codes "signature-check-passed+provenance-verified")

  abbrev pub htt : ℕ → HostToken
  htt now = record {
    token_id = codes "htt-" ++ short_hex tpm_hash;
    host_id = codes "host-" ++ short_hex cfg_hash;
    attestation_service_id = codes "attestation-svc-prototype-v1";
    boot_timestamp_utc = now;
    tpm_measurement_hash = some tpm_hash;
    baseline_config_hash = some cfg_hash;
    secure_boot_verified = true;
    baseline_match = true;
    signature = none;
  }

  abbrev pub btt_build : ℕ → BinaryToken
  btt_build now = record {
    token_id = codes "btt-build-" ++ short_hex bin_hash;
    binary_hash = some bin_hash;
    event_type = build;
    issuer_id = codes "github-actions-build-svc";
    event_timestamp = now;
    source_commit_hash = some commit_hash;
    build_provenance_uri =
        codes "https://github.com/dmendoza/example/attestations/slsa/v1?sha="
        ++ Hex.encode commit_hash;
    verification_evidence_hash = none;
    signature = none;
  }

  abbrev pub btt_deploy : ℕ → BinaryToken
  btt_deploy now = record {
    token_id = codes "btt-deploy-" ++ short_hex bin_hash;
    binary_hash = some bin_hash;
    event_type = deployment;
    issuer_id = codes "deployment-gating-svc-prod";
    event_timestamp = now;
    source_commit_hash = none;
    build_provenance_uri = [];
    verification_evidence_hash = some evidence_hash;
    signature = none;
  }

-- An appended token: its bytes, its index and the checkpoint that covers it.
pub record Entry : Type 0 where
  pub name : Bytes
  pub token : Bytes
  pub index : ℕ
  pub raw : Bytes

abbrev entry : Bytes → Bytes → ℕ × Bytes → Entry
entry name token (index, raw) = record { name = name; token = token; index = index; raw = raw }

-- A check that must fail.
abbrev pub refused {ℓ κ} : {E : Type ℓ} {A : Type κ} → Stop → Result E A → Result Stop (Unit {0})
refused stop (ok a) = err stop
refused stop (err e) = ok tt

-- A proof, or nil where there is none: the error is dropped.
abbrev pub proof_or_nil : Result Failure (List Bytes) → List Bytes
proof_or_nil (ok proof) = proof
proof_or_nil (err e) = []

-- An index of a slice that is written to.
abbrev pub within : ℕ → Bytes → Result Stop (Unit {0})
within i b = if ltb i (length b) then ok tt else err out_of_range

module _ (c : Ed25519) (log : Log) (m : Merkle) (s : Signer)
    (shutdown : log.State → log.State × Result Failure (Unit {0})) where
  -- A token is signed, and its signature checked on the bytes that are submitted.
  unfoldable pub prepare : (k : Kind) → k.Token → Result Stop Bytes
  prepare k t = wrap unsigned (sign_token c k s t).1 >>= λ token.
      wrap (λ _. nil_token) (k.unmarshal token) >>= λ parsed.
      wrap self_check (verify_token c k s parsed).1 >>= λ _. ok token

  -- `appender.Add` and `awaiter.Await`
  unfoldable pub submit : (k : Kind) → Bytes → k.Token → Program log.State Stop Entry
  unfolding prepare
  submit k name t = Programs.◌>>=◌ (lift (prepare k t)) λ token.
      Programs.◌>>=◌ (call fatal (λ st. log.append st token))
        λ place. lift (ok (entry name token place))

  -- The loop over the three tokens.
  unfoldable pub check_entries :
      log.State → log.Builder → Checkpoint → List Entry → Result Stop (Unit {0})
  check_entries st pb cp [] = ok tt
  check_entries st pb cp (e ∷ es) = wrap fatal (log.inclusion_proof st pb e.index) >>= λ proof.
      wrap (λ _. inclusion_failed e.name)
        (m.verify_inclusion e.index cp.size (hash_leaf m e.token) proof cp.hash)
      >>= λ _. check_entries st pb cp es

  -- From the checkpoint of the first token to the last one.
  unfoldable pub check_growth :
      log.State → log.Builder → Checkpoint → Checkpoint → Result Stop (Unit {0})
  check_growth st pb old cp =
      if ltb old.size cp.size
      then (wrap fatal (log.consistency_proof st pb old.size cp.size) >>= λ proof.
          wrap (λ _. consistency_failed)
            (m.verify_consistency old.size cp.size proof old.hash cp.hash))
      else ok tt

  -- `tamperedData[len(tamperedData)/2] ^= 0xFF`
  abbrev pub tampered : Bytes → Bytes
  tampered token = flip_at (length token / 2) token

  unfoldable pub refuse_tampered :
      log.State → log.Builder → Checkpoint → Entry → Result Stop (Unit {0})
  refuse_tampered st pb cp e = within (length e.token / 2) e.token >>= λ _.
      refused tampering_accepted (
        m.verify_inclusion e.index cp.size (hash_leaf m (tampered e.token))
          (proof_or_nil (log.inclusion_proof st pb e.index)) cp.hash)

  -- `parsedAgain.Signature[0] ^= 0xFF`
  abbrev pub forged : HostToken → HostToken
  forged t = record t { signature = some (flip_at 0 (bytes_of t.signature)) }

  unfoldable pub refuse_forged : Bytes → Result Stop (Unit {0})
  refuse_forged token = wrap (λ _. nil_token) (Host.unmarshal token) >>= λ parsed.
      within 0 (bytes_of parsed.signature) >>= λ _.
      refused forgery_accepted (verify_htt c s (forged parsed)).1

  -- The part behind `shutdown`. The first eight bytes of the last checkpoint's hash are printed: it
  -- is taken to have them.
  unfoldable pub check_all : log.State → Entry → Entry → Entry → Result Stop (Unit {0})
  unfolding check_entries check_growth refuse_tampered refuse_forged
  check_all st host built deployed = wrap fatal (log.unmarshal_checkpoint deployed.raw) >>= λ cp.
      wrap fatal (log.new_proof_builder st cp.size) >>= λ pb.
      check_entries st pb cp (host ∷ built ∷ deployed ∷ []) >>= λ _.
      wrap fatal (log.unmarshal_checkpoint host.raw) >>= λ old. check_growth st pb old cp >>= λ _.
      refuse_tampered st pb cp host >>= λ _. refuse_forged host.token

  unfoldable pub main : Times → Program log.State Stop (Unit {0})
  unfolding submit check_all
  main now = Programs.◌>>=◌ (submit host_kind (codes "HTT") (htt m now.boot)) λ host.
      Programs.◌>>=◌ (submit binary_kind (codes "BTT BUILD") (btt_build m now.built)) λ built.
        Programs.◌>>=◌ (submit binary_kind (codes "BTT DEPLOY") (btt_deploy m now.deployed))
          λ deployed.
            Programs.◌>>=◌ (call fatal shutdown)
              λ _. λ st. lift (check_all st host built deployed) st
