-- ===== src/Signer/Tokens/Laws.antt =====
-- Signing and verifying, for every kind of token whose encoding can be read back.
use tessera_transparency.Base.{
  ◌≡◌, refl, ap, sym, ◌∙◌, true, none, some, [], ◌∷◌, arith, Bytes, ok, ◌>>=◌, length, IsBytes,
  ◌==◌, Bool-cases, inl, inr, ==_iff,
}
use tessera_transparency.Schema.Fields.{Blob, bytes_of}
use tessera_transparency.Schema.Host
use tessera_transparency.Schema.Host.{HostToken}
use tessera_transparency.Schema.Host.Laws as HostLaws
use tessera_transparency.Schema.Host.Laws.{filled}
use tessera_transparency.Schema.Binary
use tessera_transparency.Schema.Binary.{BinaryToken}
use tessera_transparency.Schema.Binary.Laws as BinaryLaws
use tessera_transparency.Signer.Keys.{Ed25519, Signer, IsLawful}
use tessera_transparency.Signer.Tokens.{
  Kind, host_kind, binary_kind, signature_size, signed, sign_token, check_signature, verify_token,
  sign_htt, verify_htt, sign_btt, verify_btt,
}

-- What the encodings of a kind must satisfy, for the tokens that are well formed.
pub record IsKind (k : Kind) : Type 1 where
  pub IsWellFormed : k.Token → Type 0
  pub with-signature : (t : k.Token) → k.with_signature t (k.signature t) ≡ t
  pub with-with :
      (t : k.Token) (a b : Blob) → k.with_signature (k.with_signature t a) b ≡ k.with_signature t b
  pub signature-with : (t : k.Token) (b : Blob) → k.signature (k.with_signature t b) ≡ b
  -- The signing text does not depend on the signature.
  pub marshal_for_signing-with :
      (t : k.Token) (b : Blob)
      → k.marshal_for_signing (k.with_signature t b) ≡ k.marshal_for_signing t
  pub with-IsWellFormed :
      (t : k.Token) (b : Blob)
      → IsWellFormed t
      → IsBytes (bytes_of b)
      → IsWellFormed (k.with_signature t b)
  pub signing_text : (t : k.Token) → (msg : Bytes) × (k.marshal_for_signing t ≡ ok msg)
  pub unmarshal-marshal :
      (t : k.Token)
      → IsWellFormed t
      → (k.marshal t >>= k.unmarshal) ≡ ok (k.with_signature t (filled (k.signature t)))

module _ (c : Ed25519) (k : Kind) (laws : IsKind k) (s : Signer) where
  -- Verifying leaves the token as it was, whatever it answers: the signature is put back.
  pub verify_token-unchanged : (t : k.Token) → (verify_token c k s t).0 ≡ t
  unfolding verify_token
  verify_token-unchanged t =
      elim (Bool-cases (length (bytes_of (k.signature t)) == signature_size)) [
        | inl fits ↦ rw fits (laws.with-with t none (k.signature t) ∙ laws.with-signature t)
        | inr other ↦ rw other
      ]

filled_of_length : (b : Bytes) → length b ≡ 64 → filled (some b) ≡ some b
filled_of_length [] n = absurd (omega arith)
filled_of_length (x ∷ b) n = refl

-- The keys of a seed, and a token with its signing text.
module _ (c : Ed25519) (lawful : IsLawful c) (k : Kind) (laws : IsKind k) (s : Signer)
    (seed : Bytes) (length_seed : length seed ≡ 32)
    (private_of_seed : s.private_key ≡ c.new_key_from_seed seed)
    (public_of_seed : s.public_key ≡ c.public_of_seed seed) where
  -- The token as `Sign…` leaves it, for the signing text `msg`.
  signed_token : k.Token → Bytes → k.Token
  signed_token t msg = k.with_signature (k.with_signature t none) (some (c.sign s.private_key msg))

  sign_token-eq :
      (t : k.Token) (msg : Bytes)
      → k.marshal_for_signing t ≡ ok msg
      → sign_token c k s t ≡ (signed_token t msg, k.marshal (signed_token t msg))
  unfolding sign_token signed_token
  sign_token-eq t msg e = rw (laws.marshal_for_signing-with t none ∙ e, signed)

  signature-signed_token :
      (t : k.Token) (msg : Bytes)
      → k.signature (signed_token t msg) ≡ some (c.sign s.private_key msg)
  unfolding signed_token
  signature-signed_token t msg =
      laws.signature-with (k.with_signature t none) (some (c.sign s.private_key msg))

  text-signed_token :
      (t : k.Token) (msg : Bytes)
      → k.marshal_for_signing (signed_token t msg) ≡ k.marshal_for_signing t
  unfolding signed_token
  text-signed_token t msg = rw (laws.marshal_for_signing-with, laws.marshal_for_signing-with)

  verify_token-signed_token :
      (t : k.Token) (msg : Bytes)
      → k.marshal_for_signing t ≡ ok msg
      → (verify_token c k s (signed_token t msg)).1 ≡ ok tt
  unfolding verify_token
  verify_token-signed_token t msg e =
      let u = signed_token t msg in
      let text : k.marshal_for_signing (k.with_signature u none) ≡ ok msg =
        laws.marshal_for_signing-with u none ∙ text-signed_token t msg ∙ e in
      let size : (length (c.sign s.private_key msg) == signature_size) ≡ true =
        (==_iff _ _).1 (lawful.length-sign s.private_key msg) in
      let accepted : c.verify s.public_key msg (c.sign s.private_key msg) ≡ true =
        rw (private_of_seed, public_of_seed) (lawful.verify-sign seed msg length_seed) in
      rw (signature-signed_token t msg) (rw size (rw (text, check_signature) (rw accepted)))

  unmarshal-signed_token :
      (t : k.Token) (msg : Bytes)
      → laws.IsWellFormed t
      → (k.marshal (signed_token t msg) >>= k.unmarshal) ≡ ok (signed_token t msg)
  unmarshal-signed_token t msg w =
      let sig = c.sign s.private_key msg in
      let bytes = lawful.sign_bytes s.private_key msg in
      let u = signed_token t msg in
      let well : laws.IsWellFormed u =
        unfold signed_token in
        laws.with-IsWellFormed (k.with_signature t none) (some sig)
          (laws.with-IsWellFormed t none w tt) bytes in
      let same : k.with_signature u (filled (k.signature u)) ≡ u =
        ap (λ b. k.with_signature u b)
          (ap filled (signature-signed_token t msg)
            ∙ filled_of_length sig (lawful.length-sign s.private_key msg)
            ∙ sym (signature-signed_token t msg))
        ∙ laws.with-signature u in
      laws.unmarshal-marshal u well ∙ ap (λ v. ok v) same

  -- Signing a well-formed token succeeds. The submitted bytes are read back as the signed token,
  -- the signed token is verified, and its fields 1 to 8 are those of the token that was given.
  pub verify_token-sign_token :
      (t : k.Token)
      → laws.IsWellFormed t
      → let (u, submitted) = sign_token c k s t in
        ((submitted >>= k.unmarshal) ≡ ok u)
        × ((verify_token c k s u).1 ≡ ok tt)
        × (k.with_signature u none ≡ k.with_signature t none)
  verify_token-sign_token t w =
      let (msg, e) = laws.signing_text t in
      rw (sign_token-eq t msg e) (
        unmarshal-signed_token t msg w,
        verify_token-signed_token t msg e,
        unfold signed_token in (laws.with-with _ _ none ∙ laws.with-with t none none),
      )

unfoldable pub host_kind-IsKind : IsKind host_kind
unfolding Host.marshal_for_signing
host_kind-IsKind = record {
  IsWellFormed = HostLaws.IsWellFormed;
  with-signature = λ t. refl;
  with-with = λ t a b. refl;
  signature-with = λ t b. refl;
  marshal_for_signing-with = λ t b. refl;
  with-IsWellFormed = λ t b w h. HostLaws.with_signature-IsWellFormed b w h;
  signing_text = λ t. (_, refl);
  unmarshal-marshal = HostLaws.unmarshal_htt-marshal;
}

unfoldable pub binary_kind-IsKind : IsKind binary_kind
unfolding Binary.marshal_for_signing
binary_kind-IsKind = record {
  IsWellFormed = BinaryLaws.IsWellFormed;
  with-signature = λ t. refl;
  with-with = λ t a b. refl;
  signature-with = λ t b. refl;
  marshal_for_signing-with = λ t b. refl;
  with-IsWellFormed = λ t b w h. BinaryLaws.with_signature-IsWellFormed b w h;
  signing_text = λ t. (_, refl);
  unmarshal-marshal = BinaryLaws.unmarshal_btt-marshal;
}

-- The signer of a seed of 32 bytes.
module _ (c : Ed25519) (lawful : IsLawful c) (vkey seed : Bytes)
    (length_seed : length seed ≡ 32) where
  abbrev pub seeded : Signer
  seeded = record {
    vkey = vkey;
    private_key = c.new_key_from_seed seed;
    public_key = c.public_of_seed seed;
  }

  -- `SignHTT` of a well-formed token, with the key of a seed of 32 bytes, gives bytes that
  -- `UnmarshalHTT` reads as the signed token; `VerifyHTT` accepts that token, whose fields 1 to 8 are
  -- those of the token that was given.
  pub verify_htt-sign_htt :
      (t : HostToken)
      → HostLaws.IsWellFormed t
      → let (u, submitted) = sign_htt c seeded t in
        ((submitted >>= Host.unmarshal) ≡ ok u)
        × ((verify_htt c seeded u).1 ≡ ok tt)
        × (◌≡◌ {A = HostToken} (record u { signature = none }) (record t { signature = none }))
  unfolding sign_htt verify_htt host_kind-IsKind
  verify_htt-sign_htt =
      verify_token-sign_token c lawful host_kind host_kind-IsKind seeded seed length_seed refl refl

  -- `SignBTT` of a well-formed token, with the key of a seed of 32 bytes, gives bytes that
  -- `UnmarshalBTT` reads as the signed token; `VerifyBTT` accepts that token, whose fields 1 to 8 are
  -- those of the token that was given.
  pub verify_btt-sign_btt :
      (t : BinaryToken)
      → BinaryLaws.IsWellFormed t
      → let (u, submitted) = sign_btt c seeded t in
        ((submitted >>= Binary.unmarshal) ≡ ok u)
        × ((verify_btt c seeded u).1 ≡ ok tt)
        × (◌≡◌ {A = BinaryToken} (record u { signature = none }) (record t { signature = none }))
  unfolding sign_btt verify_btt binary_kind-IsKind
  verify_btt-sign_btt =
      verify_token-sign_token c lawful binary_kind binary_kind-IsKind seeded seed length_seed refl
        refl
