-- ===== src/Bench/Tokens/Laws.antt =====
-- What a reader of the benchmark's log finds in its entries.
use tessera_transparency.Base.{
  ℕ, ◌%◌, ◌≤◌, ◌<◌, ◌≡◌, refl, [], ◌∷◌, ◌++◌, none, arith, Bytes, IsBytes, ok, ◌>>=◌, codes, length,
  All, All-append,
}
use tessera_transparency.Text.Decimal
use tessera_transparency.Text.Decimal.{max_u64, IsDigit}
use tessera_transparency.Json.Utf8.{IsUtf8}
use tessera_transparency.Schema.Fields.Laws.{ascii-IsUtf8}
use tessera_transparency.Schema.Host
use tessera_transparency.Schema.Host.{HostToken}
use tessera_transparency.Schema.Host.Laws as HostLaws
use tessera_transparency.Schema.Binary
use tessera_transparency.Schema.Binary.{BinaryToken}
use tessera_transparency.Schema.Binary.Laws as BinaryLaws
use tessera_transparency.Signer.Keys.{Ed25519, IsLawful, Signer}
use tessera_transparency.Signer.Tokens.{sign_htt, sign_btt, verify_htt, verify_btt}
use tessera_transparency.Signer.Tokens.Laws.{seeded, verify_htt-sign_htt, verify_btt-sign_btt}
use tessera_transparency.Log.{Merkle}
use tessera_transparency.Bench.Tokens.{bench_htt, bench_btt, make_htt, make_btt}

digits_ascii : (s : Bytes) → All IsDigit s → All (λ c. c < 128) s
digits_ascii [] h = tt
digits_ascii (c ∷ s) (hc, h) = (omega arith, digits_ascii s h)

-- A prefix of ASCII and a number are text.
label-IsUtf8 : (p : Bytes) (n : ℕ) → All (λ c. c < 128) p → IsUtf8 (p ++ Decimal.format n)
label-IsUtf8 p n h = ascii-IsUtf8 (p ++ Decimal.format n) (
    All-append (λ c. c < 128) p (Decimal.format n) h
      (digits_ascii (Decimal.format n) (Decimal.format-IsDigit n)))

module _ (m : Merkle) (hash_bytes : (s : Bytes) → IsBytes (m.sha256 s)) where
  bench_htt-IsWellFormed : (now i : ℕ) → now ≤ max_u64 → HostLaws.IsWellFormed (bench_htt m now i)
  bench_htt-IsWellFormed now i h = record {
    token_text = label-IsUtf8 (codes "token-") i (omega arith);
    host_text = label-IsUtf8 (codes "host-") (i % 1000) (omega arith);
    service_text = ascii-IsUtf8 (codes "sprint4-bench-attest-svc") (omega arith);
    timestamp_fits = h;
    tpm_bytes = hash_bytes _;
    baseline_bytes = hash_bytes _;
    signature_bytes = tt;
  }

  bench_btt-IsWellFormed : (now i : ℕ) → now ≤ max_u64 → BinaryLaws.IsWellFormed (bench_btt m now i)
  bench_btt-IsWellFormed now i h = record {
    token_text = label-IsUtf8 (codes "token-") i (omega arith);
    binary_bytes = hash_bytes _;
    event_number = 0;
    event_fits = (refl, omega arith);
    issuer_text = ascii-IsUtf8 (codes "sprint4-bench-build-svc") (omega arith);
    timestamp_fits = h;
    commit_bytes = hash_bytes _;
    uri_text = label-IsUtf8 (codes "https://example.com/slsa?entry=") i (omega arith);
    evidence_bytes = tt;
    signature_bytes = tt;
  }

  module _ (c : Ed25519) (lawful : IsLawful c) (vkey seed : Bytes)
      (length_seed : length seed ≡ 32) where
    abbrev signer : Signer
    signer = seeded c lawful vkey seed length_seed

    -- The bytes that `makeHTT` gives for an entry are read back as a token that `VerifyHTT` accepts
    -- and that has, but for its signature, the fields of the entry. SHA-256 gives bytes, the clock
    -- has 64 bits and the key is that of a seed of 32 bytes.
    make_htt_verified :
        (now i : ℕ)
        → now ≤ max_u64
        → (u : HostToken) × ((make_htt c m signer now i >>= Host.unmarshal) ≡ ok u)
          × ((verify_htt c signer u).1 ≡ ok tt)
          × (◌≡◌ {A = HostToken} (record u { signature = none }) (bench_htt m now i))
    unfolding make_htt
    make_htt_verified now i h =
        let (read, accepted, same) =
          verify_htt-sign_htt c lawful vkey seed length_seed (bench_htt m now i)
            (bench_htt-IsWellFormed now i h) in
        ((sign_htt c signer (bench_htt m now i)).0, read, accepted, same)

    -- The bytes that `makeBTT` gives for an entry are read back as a token that `VerifyBTT` accepts
    -- and that has, but for its signature, the fields of the entry. SHA-256 gives bytes, the clock
    -- has 64 bits and the key is that of a seed of 32 bytes.
    make_btt_verified :
        (now i : ℕ)
        → now ≤ max_u64
        → (u : BinaryToken) × ((make_btt c m signer now i >>= Binary.unmarshal) ≡ ok u)
          × ((verify_btt c signer u).1 ≡ ok tt)
          × (◌≡◌ {A = BinaryToken} (record u { signature = none }) (bench_btt m now i))
    unfolding make_btt
    make_btt_verified now i h =
        let (read, accepted, same) =
          verify_btt-sign_btt c lawful vkey seed length_seed (bench_btt m now i)
            (bench_btt-IsWellFormed now i h) in
        ((sign_btt c signer (bench_btt m now i)).0, read, accepted, same)
