-- ===== src/Signer/Tokens.antt =====
-- `SignHTT`, `SignBTT`, `VerifyHTT` and `VerifyBTT` of internal/signer/signer.go. The methods for
-- the two tokens differ in the type alone, so they are written once, over a kind of token. A method
-- changes the token that it is given; it returns the token as it leaves it.
pub mod Laws
pub mod Verdict
use tessera_transparency.Base.{
  ℕ, ◌≡◌, refl, Option, none, some, Bytes, Result, ok, err, ◌>>=◌, length, ◌==◌, if◌then◌else◌,
  IsBytes,
}
use tessera_transparency.Schema.Fields.{JsonError, Blob, bytes_of}
use tessera_transparency.Schema.Host
use tessera_transparency.Schema.Host.{HostToken}
use tessera_transparency.Schema.Binary
use tessera_transparency.Schema.Binary.{BinaryToken}
use tessera_transparency.Signer.Keys.{Ed25519, Signer}

-- A type of token with its signature field, its encodings and its decoder.
pub record Kind : Type 1 where
  pub Token : Type 0
  pub signature : Token → Blob
  pub with_signature : Token → Blob → Token
  pub marshal : Token → Result JsonError Bytes
  pub marshal_for_signing : Token → Result JsonError Bytes
  pub unmarshal : Bytes → Result JsonError Token

abbrev pub host_kind : Kind
host_kind = record {
  Token = HostToken;
  signature = λ t. t.signature;
  with_signature = λ t b. record t { signature = b };
  marshal = Host.marshal;
  marshal_for_signing = Host.marshal_for_signing;
  unmarshal = Host.unmarshal;
}

abbrev pub binary_kind : Kind
binary_kind = record {
  Token = BinaryToken;
  signature = λ t. t.signature;
  with_signature = λ t b. record t { signature = b };
  marshal = Binary.marshal;
  marshal_for_signing = Binary.marshal_for_signing;
  unmarshal = Binary.unmarshal;
}

pub data VerifyError : Type 0 where
  bad_length : ℕ → VerifyError
  unmarshalled : JsonError → VerifyError
  rejected : VerifyError

-- `ed25519.SignatureSize`
abbrev pub signature_size : ℕ
signature_size = 64

module _ (c : Ed25519) (k : Kind) (s : Signer) where
  signed : k.Token → Result JsonError Bytes → k.Token × Result JsonError Bytes
  signed t (err e) = (t, err e)
  signed t (ok msg) =
      let t' = k.with_signature t (some (c.sign s.private_key msg)) in (t', k.marshal t')

  unfoldable pub sign_token : k.Token → k.Token × Result JsonError Bytes
  unfolding signed
  sign_token t = let t' = k.with_signature t none in signed t' (k.marshal_for_signing t')

  check_signature : Bytes → Result JsonError Bytes → Result VerifyError (Unit {0})
  check_signature sig (err e) = err (unmarshalled e)
  check_signature sig (ok msg) = if c.verify s.public_key msg sig then ok tt else err rejected

  unfoldable pub verify_token : k.Token → k.Token × Result VerifyError (Unit {0})
  unfolding check_signature
  verify_token t =
      let sig = k.signature t in
      let t' = k.with_signature t none in
      let msg = k.marshal_for_signing t' in
      let restored = k.with_signature t' sig in
      if length (bytes_of sig) == signature_size
      then (restored, check_signature (bytes_of sig) msg)
      else (t, err (bad_length (length (bytes_of sig))))

unfoldable pub sign_htt : Ed25519 → Signer → HostToken → HostToken × Result JsonError Bytes
unfolding sign_token
sign_htt c = sign_token c host_kind

unfoldable pub sign_btt : Ed25519 → Signer → BinaryToken → BinaryToken × Result JsonError Bytes
unfolding sign_token
sign_btt c = sign_token c binary_kind

unfoldable pub verify_htt : Ed25519 → Signer → HostToken → HostToken × Result VerifyError (Unit {0})
unfolding verify_token
verify_htt c = verify_token c host_kind

unfoldable pub verify_btt :
    Ed25519 → Signer → BinaryToken → BinaryToken × Result VerifyError (Unit {0})
unfolding verify_token
verify_btt c = verify_token c binary_kind
