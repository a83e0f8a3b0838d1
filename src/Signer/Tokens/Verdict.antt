-- ===== src/Signer/Tokens/Verdict.antt =====
-- When `VerifyHTT` and `VerifyBTT` accept a token.
use tessera_transparency.Base.{
  ◌≡◌, refl, ◌↔◌, true, none, arith, Bytes, Result, ok, err, length, ◌==◌, ==_iff, Bool-cases, inl,
  inr,
}
use tessera_transparency.Schema.Fields.{JsonError, bytes_of}
use tessera_transparency.Schema.Host
use tessera_transparency.Schema.Host.{HostToken}
use tessera_transparency.Schema.Binary
use tessera_transparency.Schema.Binary.{BinaryToken}
use tessera_transparency.Signer.Keys.{Ed25519, Signer}
use tessera_transparency.Signer.Tokens.{
  Kind, host_kind, binary_kind, check_signature, verify_token, verify_htt, verify_btt,
  signature_size,
}

check_signature_sound :
    (c : Ed25519) (k : Kind) (s : Signer) (sig : Bytes) (x : Result JsonError Bytes)
    → check_signature c k s sig x ≡ ok tt
    → (msg : Bytes) × (x ≡ ok msg) × (c.verify s.public_key msg sig ≡ true)
unfolding check_signature
check_signature_sound c k s sig (err e) h = absurd (ground arith)
check_signature_sound c k s sig (ok msg) h = (msg, refl, ground arith)

module _ (c : Ed25519) (k : Kind) (s : Signer) where
  verify_token_sound :
      (t : k.Token)
      → (verify_token c k s t).1 ≡ ok tt
      → (length (bytes_of (k.signature t)) ≡ 64)
        × ((msg : Bytes) × (k.marshal_for_signing (k.with_signature t none) ≡ ok msg)
            × (c.verify s.public_key msg (bytes_of (k.signature t)) ≡ true))
  unfolding verify_token
  verify_token_sound t h = elim (Bool-cases (length (bytes_of (k.signature t)) == signature_size)) [
    | inl fits ↦ (
      (==_iff _ _).0 fits,
      check_signature_sound c k s (bytes_of (k.signature t))
          (k.marshal_for_signing (k.with_signature t none)) (rw fits at h),
    )
    | inr other ↦ absurd (ground arith)
  ]

  verify_token_complete :
      (t : k.Token) (msg : Bytes)
      → length (bytes_of (k.signature t)) ≡ 64
      → k.marshal_for_signing (k.with_signature t none) ≡ ok msg
      → c.verify s.public_key msg (bytes_of (k.signature t)) ≡ true
      → (verify_token c k s t).1 ≡ ok tt
  unfolding verify_token
  verify_token_complete t msg size text good =
      let fits : (length (bytes_of (k.signature t)) == signature_size) ≡ true =
        (==_iff _ _).1 size in
      rw fits (rw (text, check_signature) (rw good))

module _ (c : Ed25519) (s : Signer) where
  -- `VerifyHTT` accepts a token exactly if its signature has 64 bytes and is, for the public key of
  -- the signer, a signature of the token's signing encoding.
  pub verify_htt_iff :
      (t : HostToken)
      → ((verify_htt c s t).1 ≡ ok tt) ↔ (
          (length (bytes_of t.signature) ≡ 64)
          × ((msg : Bytes) × (Host.marshal_for_signing t ≡ ok msg)
              × (c.verify s.public_key msg (bytes_of t.signature) ≡ true)))
  unfolding verify_htt Host.marshal_for_signing
  verify_htt_iff t = (
    verify_token_sound c host_kind s t,
    λ (size, (msg, text, good)). verify_token_complete c host_kind s t msg size text good,
  )

  -- `VerifyBTT` accepts a token exactly if its signature has 64 bytes and is, for the public key of
  -- the signer, a signature of the token's signing encoding.
  pub verify_btt_iff :
      (t : BinaryToken)
      → ((verify_btt c s t).1 ≡ ok tt) ↔ (
          (length (bytes_of t.signature) ≡ 64)
          × ((msg : Bytes) × (Binary.marshal_for_signing t ≡ ok msg)
              × (c.verify s.public_key msg (bytes_of t.signature) ≡ true)))
  unfolding verify_btt Binary.marshal_for_signing
  verify_btt_iff t = (
    verify_token_sound c binary_kind s t,
    λ (size, (msg, text, good)). verify_token_complete c binary_kind s t msg size text good,
  )
