-- ===== src/Bench/Tokens.antt =====
-- `makeHTT` and `makeBTT` of cmd/sprint4: the tokens that the benchmark appends. The clock gives
-- `now`, in seconds.
pub mod Laws
use tessera_transparency.Base.{ℕ, ◌%◌, ◌++◌, true, Option, none, some, Bytes, Result, codes}
use tessera_transparency.Text.Decimal
use tessera_transparency.Schema.Fields.{JsonError}
use tessera_transparency.Schema.Host.{HostToken}
use tessera_transparency.Schema.Binary.{BinaryToken, build}
use tessera_transparency.Signer.Keys.{Ed25519, Signer}
use tessera_transparency.Signer.Tokens.{sign_htt, sign_btt}
use tessera_transparency.Log.{Merkle}

-- The token of entry `i`, before it is signed.
abbrev pub bench_htt : Merkle → ℕ → ℕ → HostToken
bench_htt m now i = record {
  token_id = codes "token-" ++ Decimal.format i;
  host_id = codes "host-" ++ Decimal.format (i % 1000);
  attestation_service_id = codes "sprint4-bench-attest-svc";
  boot_timestamp_utc = now;
  tpm_measurement_hash = some (m.sha256 (codes "sprint4-htt-" ++ Decimal.format i ++ codes "-tpm"));
  baseline_config_hash = some (m.sha256 (codes "sprint4-htt-" ++ Decimal.format i ++ codes "-cfg"));
  secure_boot_verified = true;
  baseline_match = true;
  signature = none;
}

abbrev pub bench_btt : Merkle → ℕ → ℕ → BinaryToken
bench_btt m now i = record {
  token_id = codes "token-" ++ Decimal.format i;
  binary_hash = some (m.sha256 (codes "sprint4-btt-" ++ Decimal.format i ++ codes "-bin"));
  event_type = build;
  issuer_id = codes "sprint4-bench-build-svc";
  event_timestamp = now;
  source_commit_hash = some (m.sha256 (codes "sprint4-btt-" ++ Decimal.format i ++ codes "-src"));
  build_provenance_uri = codes "https://example.com/slsa?entry=" ++ Decimal.format i;
  verification_evidence_hash = none;
  signature = none;
}

-- `makeHTT`
unfoldable pub make_htt : Ed25519 → Merkle → Signer → ℕ → ℕ → Result JsonError Bytes
make_htt c m s now i = (sign_htt c s (bench_htt m now i)).1

-- `makeBTT`
unfoldable pub make_btt : Ed25519 → Merkle → Signer → ℕ → ℕ → Result JsonError Bytes
make_btt c m s now i = (sign_btt c s (bench_btt m now i)).1
