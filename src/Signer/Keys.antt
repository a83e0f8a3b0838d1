-- ===== src/Signer/Keys.antt =====
-- Note keys: `privFromNoteKey`, `pubFromNoteKey`, `decodeBase64Payload` and `fromNoteStrings`.
pub mod Laws
use tessera_transparency.Base.{
  ℕ, ◌≡◌, Bool, ◌&&◌, List, [], ◌∷◌, ◌++◌, Option, none, some, Bytes, Result, ok, err, ◌>>=◌, wrap,
  codes, length, drop, ◌==◌, if◌then◌else◌, bytes_eq, true, IsBytes,
}
use tessera_transparency.Text.Split.{split_n}
use tessera_transparency.Text.Trim.{trim_space}
use tessera_transparency.Text.Base64

-- `crypto/ed25519`.
pub record Ed25519 : Type 0 where
  pub new_key_from_seed : Bytes → Bytes
  pub public_of_seed : Bytes → Bytes
  pub sign : Bytes → Bytes → Bytes
  pub verify : Bytes → Bytes → Bytes → Bool

-- What its documentation says: a signature has 64 bytes, and the public key of a seed accepts what
-- the private key of the seed signs.
pub record IsLawful (c : Ed25519) : Type 0 where
  pub length-sign : (key msg : Bytes) → length (c.sign key msg) ≡ 64
  pub sign_bytes : (key msg : Bytes) → IsBytes (c.sign key msg)
  pub length-public : (seed : Bytes) → length (c.public_of_seed seed) ≡ 32
  pub public_bytes : (seed : Bytes) → IsBytes (c.public_of_seed seed)
  pub verify-sign :
      (seed msg : Bytes)
      → length seed ≡ 32
      → c.verify (c.public_of_seed seed) msg (c.sign (c.new_key_from_seed seed) msg) ≡ true

pub data KeyError : Type 0 where
  not_private not_public : ℕ → KeyError
  bad_base64 : KeyError
  bad_length : ℕ → KeyError

-- `raw, err = StdEncoding…; if err != nil { raw, err = RawStdEncoding… }`
decode_either : Bytes → Result KeyError Bytes
decode_either s = elim (Base64.decode s) [
  | some raw ↦ ok raw
  | none ↦ elim (Base64.decode_raw s) [ some raw ↦ ok raw | none ↦ err bad_base64 ]
]

abbrev check_payload : Bytes → Result KeyError Bytes
check_payload raw = if length raw == 33 then ok raw else err (bad_length (length raw))

-- `decodeBase64Payload`
unfoldable pub decode_payload : Bytes → Result KeyError Bytes
unfolding decode_either
decode_payload s = decode_either (trim_space s) >>= check_payload

abbrev plus : ℕ
plus = b'+'

private_parts : Ed25519 → List Bytes → Result KeyError Bytes
private_parts c (p ∷ k ∷ name ∷ id ∷ payload ∷ []) =
    if bytes_eq p (codes "PRIVATE") && bytes_eq k (codes "KEY")
    then (decode_payload payload >>= λ raw. ok (c.new_key_from_seed (drop 1 raw)))
    else err (not_private 5)
private_parts c parts = err (not_private (length parts))

-- `privFromNoteKey`
unfoldable pub private_from_note_key : Ed25519 → Bytes → Result KeyError Bytes
unfolding private_parts
private_from_note_key c skey = private_parts c (split_n plus 5 (trim_space skey))

public_parts : List Bytes → Result KeyError Bytes
public_parts (name ∷ id ∷ payload ∷ []) = decode_payload payload >>= λ raw. ok (drop 1 raw)
public_parts parts = err (not_public (length parts))

-- `pubFromNoteKey`
unfoldable pub public_from_note_key : Bytes → Result KeyError Bytes
unfolding public_parts
public_from_note_key vkey = public_parts (split_n plus 3 (trim_space vkey))

-- `Signer`
pub record Signer : Type 0 where
  pub vkey : Bytes
  pub private_key : Bytes
  pub public_key : Bytes

pub data SignerError : Type 0 where
  parse_private parse_public : KeyError → SignerError
  generate_key create_dir write_file : SignerError

-- `fromNoteStrings`
unfoldable pub from_note_strings : Ed25519 → Bytes → Bytes → Result SignerError Signer
from_note_strings c skey vkey = wrap parse_private (private_from_note_key c skey) >>= λ private.
    wrap parse_public (public_from_note_key vkey) >>= λ public.
    ok (record { vkey = vkey; private_key = private; public_key = public })

-- `PublicKeyString`
unfoldable pub public_key_string : Signer → Bytes
public_key_string s = s.vkey
