-- ===== src/Tests/Tokens.antt =====
-- Two tokens, signed and verified.
use tessera_transparency.Base.{
  ◌↔◌, length, Bytes, ◌≡◌, refl, true, false, [], ◌∷◌, none, some, arith, ok, ◌>>=◌, codes,
}
use tessera_transparency.Schema.Fields.Laws.{ascii-IsUtf8}
use tessera_transparency.Schema.Host
use tessera_transparency.Schema.Host.{HostToken}
use tessera_transparency.Schema.Host.Laws as HostLaws
use tessera_transparency.Schema.Binary
use tessera_transparency.Schema.Binary.{BinaryToken, deployment, to_string}
use tessera_transparency.Schema.Binary.Laws as BinaryLaws
use tessera_transparency.Text.Decimal
use tessera_transparency.Text.Integer
use tessera_transparency.Text.Integer.{pos, negsuc}
use tessera_transparency.Signer.Keys.{Signer}
use tessera_transparency.Signer.Tokens.{sign_htt, verify_htt, sign_btt, verify_btt}
use tessera_transparency.Signer.Tokens.Verdict.{verify_htt_iff}
use tessera_transparency.Signer.Tokens.Laws.{verify_htt-sign_htt, verify_btt-sign_btt, seeded}
use tessera_transparency.Tests.Instances.{
  toy_ed25519, toy_ed25519-IsLawful, toy_seed, toy_vkey, toy_signature,
}

abbrev host : HostToken
host = record {
  token_id = codes "htt-1";
  host_id = codes "host <7>";
  attestation_service_id = codes "as";
  boot_timestamp_utc = 1700000000;
  tpm_measurement_hash = some (1 ∷ 255 ∷ []);
  baseline_config_hash = none;
  secure_boot_verified = true;
  baseline_match = false;
  signature = none;
}

abbrev binary : BinaryToken
binary = record {
  token_id = codes "btt-1";
  binary_hash = some (3 ∷ 4 ∷ 5 ∷ []);
  event_type = deployment;
  issuer_id = codes "ci";
  event_timestamp = 1700000001;
  source_commit_hash = some [];
  build_provenance_uri = codes "https://x/?a=1&b=2";
  verification_evidence_hash = none;
  signature = none;
}

host-IsWellFormed : HostLaws.IsWellFormed host
host-IsWellFormed = record {
  token_text = ascii-IsUtf8 (codes "htt-1") (omega arith);
  host_text = ascii-IsUtf8 (codes "host <7>") (omega arith);
  service_text = ascii-IsUtf8 (codes "as") (omega arith);
  timestamp_fits = omega arith;
  tpm_bytes = omega arith;
  baseline_bytes = omega arith;
  signature_bytes = omega arith;
}

binary-IsWellFormed : BinaryLaws.IsWellFormed binary
binary-IsWellFormed = record {
  token_text = ascii-IsUtf8 (codes "btt-1") (omega arith);
  binary_bytes = omega arith;
  event_number = 1;
  event_fits = (refl, omega arith);
  issuer_text = ascii-IsUtf8 (codes "ci") (omega arith);
  timestamp_fits = omega arith;
  commit_bytes = omega arith;
  uri_text = ascii-IsUtf8 (codes "https://x/?a=1&b=2") (omega arith);
  evidence_bytes = omega arith;
  signature_bytes = omega arith;
}

abbrev signer : Signer
signer = seeded toy_ed25519 toy_ed25519-IsLawful toy_vkey toy_seed refl

verify_htt-sign_htt_example :
    let (u, submitted) = sign_htt toy_ed25519 signer host in
    ((submitted >>= Host.unmarshal) ≡ ok u)
    × ((verify_htt toy_ed25519 signer u).1 ≡ ok tt)
    × (◌≡◌ {A = HostToken} (record u { signature = none }) (record host { signature = none }))
verify_htt-sign_htt_example =
    verify_htt-sign_htt toy_ed25519 toy_ed25519-IsLawful toy_vkey toy_seed refl host
      host-IsWellFormed

verify_btt-sign_btt_example :
    let (u, submitted) = sign_btt toy_ed25519 signer binary in
    ((submitted >>= Binary.unmarshal) ≡ ok u)
    × ((verify_btt toy_ed25519 signer u).1 ≡ ok tt)
    × (◌≡◌ {A = BinaryToken} (record u { signature = none }) (record binary { signature = none }))
verify_btt-sign_btt_example =
    verify_btt-sign_btt toy_ed25519 toy_ed25519-IsLawful toy_vkey toy_seed refl binary
      binary-IsWellFormed

unmarshal_htt-marshal_example :
    (Host.marshal host >>= Host.unmarshal) ≡ ok (record host { signature = none })
unmarshal_htt-marshal_example = HostLaws.unmarshal_htt-marshal host host-IsWellFormed

unmarshal_btt-marshal_example :
    (Binary.marshal binary >>= Binary.unmarshal) ≡ ok (record binary { signature = none })
unmarshal_btt-marshal_example = BinaryLaws.unmarshal_btt-marshal binary binary-IsWellFormed

abbrev signed_host : HostToken
signed_host = record host { signature = some (toy_signature []) }

abbrev signed_binary : BinaryToken
signed_binary = record binary { signature = some (toy_signature []) }

same_host_text : Host.marshal_for_signing host ≡ Host.marshal_for_signing signed_host
unfolding Host.marshal_for_signing
same_host_text = refl

same_binary_text : Binary.marshal_for_signing binary ≡ Binary.marshal_for_signing signed_binary
unfolding Binary.marshal_for_signing
same_binary_text = refl

marshal_for_signing_htt_injective_example :
    ◌≡◌ {A = HostToken} (record host { signature = none }) (record signed_host { signature = none })
marshal_for_signing_htt_injective_example =
    HostLaws.marshal_for_signing_htt_injective host signed_host host-IsWellFormed
      (HostLaws.with_signature-IsWellFormed (some (toy_signature [])) host-IsWellFormed
        (omega arith))
      same_host_text

verify_htt_iff_example : ((verify_htt toy_ed25519 signer signed_host).1 ≡ ok tt) ↔ (
    (length (toy_signature []) ≡ 64)
    × ((msg : Bytes) × (Host.marshal_for_signing signed_host ≡ ok msg)
        × (toy_ed25519.verify signer.public_key msg (toy_signature []) ≡ true)))
verify_htt_iff_example = verify_htt_iff toy_ed25519 signer signed_host

event_names :
    (to_string deployment ≡ codes "DEPLOYMENT")
    × (to_string (pos 2) ≡ codes "UNKNOWN(2)")
    × (to_string (negsuc 0) ≡ codes "UNKNOWN(-1)")
unfolding to_string Integer.format Decimal.format
event_names = (refl, refl, refl)
