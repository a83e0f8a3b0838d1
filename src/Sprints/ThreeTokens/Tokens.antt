-- ===== src/Sprints/ThreeTokens/Tokens.antt =====
-- The tokens of cmd/sprint2 pass their own checks.
use tessera_transparency.Base.{
  ℕ, zero, suc, ◌≤◌, ◌<◌, ◌≡◌, refl, ap, [], ◌∷◌, ◌++◌, arith, Bytes, IsBytes, Result, ok, err,
  codes, length, take, All, All-append, wrap, bind_ok,
}
use mathlib.Core.Path.{subst}
use tessera_transparency.Text.Hex
use tessera_transparency.Text.Decimal.{max_u64}
use tessera_transparency.Json.Utf8.{IsUtf8}
use tessera_transparency.Schema.Fields.Laws.{ascii-IsUtf8}
use tessera_transparency.Schema.Host.Laws as HostLaws
use tessera_transparency.Schema.Binary.Laws as BinaryLaws
use tessera_transparency.Signer.Keys.{Ed25519, IsLawful, Signer}
use tessera_transparency.Signer.Tokens.{Kind, host_kind, binary_kind, sign_token}
use tessera_transparency.Signer.Tokens.Laws.{
  IsKind, host_kind-IsKind, binary_kind-IsKind, seeded, verify_token-sign_token,
}
use tessera_transparency.Log.{Log, Merkle, Failure}
use tessera_transparency.Sprints.ThreeTokens.Laws.{submit_sound}
use tessera_transparency.Sprints.ThreeTokens.Passing.{
  IsForeign, Passes, Passes-wrap, Passes-continue, Passes-finish,
}
use tessera_transparency.Sprints.ThreeTokens.{
  Stop, fatal, Times, short_hex, htt, btt_build, btt_deploy, prepare, submit, main,
}

take-All : (n : ℕ) (s : Bytes) → IsBytes s → IsBytes (take n s)
take-All zero s h = tt
take-All (suc n) [] h = tt
take-All (suc n) (c ∷ s) (hc, h) = (hc, take-All n s h)

-- A label and hexadecimal digits are text.
label-IsUtf8 : (p s : Bytes) → All (λ c. c < 128) p → IsBytes s → IsUtf8 (p ++ Hex.encode s)
label-IsUtf8 p s hp hs =
    ascii-IsUtf8 (p ++ Hex.encode s)
      (All-append (λ c. c < 128) p (Hex.encode s) hp (Hex.encode-IsAscii s hs))

short-IsUtf8 : (p s : Bytes) → All (λ c. c < 128) p → IsBytes s → IsUtf8 (p ++ short_hex s)
unfolding short_hex
short-IsUtf8 p s hp hs = label-IsUtf8 p (take 6 s) hp (take-All 6 s hs)

module _ (m : Merkle) (hash_bytes : (s : Bytes) → IsBytes (m.sha256 s)) where
  pub htt-IsWellFormed : (now : ℕ) → now ≤ max_u64 → HostLaws.IsWellFormed (htt m now)
  htt-IsWellFormed now h = record {
    token_text = short-IsUtf8 (codes "htt-") _ (omega arith) (hash_bytes _);
    host_text = short-IsUtf8 (codes "host-") _ (omega arith) (hash_bytes _);
    service_text = ascii-IsUtf8 (codes "attestation-svc-prototype-v1") (omega arith);
    timestamp_fits = h;
    tpm_bytes = hash_bytes _;
    baseline_bytes = hash_bytes _;
    signature_bytes = tt;
  }

  pub btt_build-IsWellFormed : (now : ℕ) → now ≤ max_u64 → BinaryLaws.IsWellFormed (btt_build m now)
  btt_build-IsWellFormed now h = record {
    token_text = short-IsUtf8 (codes "btt-build-") _ (omega arith) (hash_bytes _);
    binary_bytes = hash_bytes _;
    event_number = 0;
    event_fits = (refl, omega arith);
    issuer_text = ascii-IsUtf8 (codes "github-actions-build-svc") (omega arith);
    timestamp_fits = h;
    commit_bytes = hash_bytes _;
    uri_text =
        label-IsUtf8 (codes "https://github.com/dmendoza/example/attestations/slsa/v1?sha=") _
          (omega arith) (hash_bytes _);
    evidence_bytes = tt;
    signature_bytes = tt;
  }

  pub btt_deploy-IsWellFormed :
      (now : ℕ) → now ≤ max_u64 → BinaryLaws.IsWellFormed (btt_deploy m now)
  btt_deploy-IsWellFormed now h = record {
    token_text = short-IsUtf8 (codes "btt-deploy-") _ (omega arith) (hash_bytes _);
    binary_bytes = hash_bytes _;
    event_number = 1;
    event_fits = (refl, omega arith);
    issuer_text = ascii-IsUtf8 (codes "deployment-gating-svc-prod") (omega arith);
    timestamp_fits = h;
    commit_bytes = tt;
    uri_text = ascii-IsUtf8 [] tt;
    evidence_bytes = hash_bytes _;
    signature_bytes = tt;
  }

module _ (c : Ed25519) (lawful : IsLawful c) (log : Log) (m : Merkle)
    (hash_bytes : (s : Bytes) → IsBytes (m.sha256 s)) (vkey seed : Bytes)
    (length_seed : length seed ≡ 32)
    (shutdown : log.State → log.State × Result Failure (Unit {0})) where
  abbrev signer : Signer
  signer = seeded c lawful vkey seed length_seed

  -- A well-formed token passes its own check.
  prepare_complete :
      (k : Kind) (laws : IsKind k) (t : k.Token)
      → laws.IsWellFormed t
      → (token : Bytes) × (prepare c log m signer shutdown k t ≡ ok token)
  unfolding prepare
  prepare_complete k laws t w =
      let (read, verified, same) =
        verify_token-sign_token c lawful k laws signer seed length_seed refl refl t w in
      let (token, signed, parsed) = bind_ok (sign_token c k signer t).1 k.unmarshal read in
      (token, rw signed (rw parsed (rw verified)))

  Passes-submit :
      (k : Kind) (laws : IsKind k) (name : Bytes) (t : k.Token) (st : log.State)
      → laws.IsWellFormed t
      → Passes (submit c log m signer shutdown k name t st).1
  unfolding submit
  Passes-submit k laws name t st w =
      let (token, prepared) = prepare_complete k laws t w in
      rw prepared (
        Passes-continue ((log.append st token).0, wrap fatal (log.append st token).1) _
          (Passes-wrap fatal (log.append st token).1 (λ x. tt)) (λ place _. tt))

  -- Whatever the log does, the program does not stop at its own tokens: they are signed, read back
  -- and verified. SHA-256 gives bytes, the clock has 64 bits and the key is that of a seed of 32
  -- bytes.
  pub main_tokens :
      (now : Times) (st st' : log.State) (stop : Stop)
      → now.boot ≤ max_u64
      → now.built ≤ max_u64
      → now.deployed ≤ max_u64
      → main c log m signer shutdown now st ≡ (st', err stop)
      → IsForeign stop
  unfolding main
  main_tokens now st st' stop h1 h2 h3 e =
      let sub = submit c log m signer shutdown in
      let all : Passes (main c log m signer shutdown now st).1 =
        Passes-continue (sub host_kind (codes "HTT") (htt m now.boot) st) _
          (Passes-submit host_kind host_kind-IsKind (codes "HTT") (htt m now.boot) st
            (unfold host_kind-IsKind in htt-IsWellFormed m hash_bytes now.boot h1))
          λ host first.
            Passes-continue _ _
              (Passes-submit binary_kind binary_kind-IsKind (codes "BTT BUILD")
                (btt_build m now.built) _
                (unfold binary_kind-IsKind in btt_build-IsWellFormed m hash_bytes now.built h2))
              λ built _.
                Passes-continue _ _
                  (Passes-submit binary_kind binary_kind-IsKind (codes "BTT DEPLOY")
                    (btt_deploy m now.deployed) _
                    (unfold binary_kind-IsKind in
                      btt_deploy-IsWellFormed m hash_bytes now.deployed h3))
                  λ deployed _.
                    Passes-finish c log m signer shutdown _ host built deployed
                      (submit_sound c log m signer shutdown host_kind (codes "HTT") (htt m now.boot)
                        st _ host first).0 in
      subst (λ (r : Result Stop (Unit {0})). Passes r) (ap (λ p. p.1) e) all
