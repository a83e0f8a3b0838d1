-- ===== src/Signer/Keys/Laws.antt =====
-- Keys in the note format are read back.
use tessera_transparency.Base.{
  ℕ, suc, ◌≡◌, refl, ◌≢◌, ap, ◌∙◌, List, [], ◌∷◌, ◌++◌, arith, Bytes, IsBytes, ok, codes, length,
  drop, Lacks, All, All-append, ◌>>=◌, Result-cases, inl, inr,
}
use tessera_transparency.Text.Split.{split_n, split_n-append}
use tessera_transparency.Text.Trim.{trim_space, IsCleanByte, trim_space_of_All}
use tessera_transparency.Text.Base64
use tessera_transparency.Signer.Keys.{
  Ed25519, IsLawful, Signer, decode_payload, decode_either, check_payload, plus, private_parts,
  public_parts, private_from_note_key, public_from_note_key, from_note_strings,
}

-- A key name or key id: printable ASCII without a plus.
abbrev pub IsWord : Bytes → Type 0
IsWord = All (λ c. IsCleanByte c × (c ≢ plus))

-- The note format of a public key.
abbrev pub note_public : Bytes → Bytes → Bytes → Bytes
note_public name id payload = name ++ plus ∷ (id ++ plus ∷ Base64.encode payload)

-- The note format of a private key.
abbrev pub note_private : Bytes → Bytes → Bytes → Bytes
note_private name id payload =
    codes "PRIVATE" ++ plus ∷ (codes "KEY" ++ plus ∷ note_public name id payload)

IsWord-clean : (s : Bytes) → IsWord s → All IsCleanByte s
IsWord-clean [] h = tt
IsWord-clean (c ∷ s) ((clean, _), h) = (clean, IsWord-clean s h)

IsWord-Lacks : (s : Bytes) → IsWord s → Lacks plus s
IsWord-Lacks [] h = tt
IsWord-Lacks (c ∷ s) ((_, other), h) = (other, IsWord-Lacks s h)

IsClean-clean : (s : Bytes) → Base64.IsClean s → All IsCleanByte s
IsClean-clean [] h = tt
IsClean-clean (c ∷ s) (hc, h) = (hc, IsClean-clean s h)

encode-clean : (p : Bytes) → IsBytes p → All IsCleanByte (Base64.encode p)
encode-clean p h = IsClean-clean (Base64.encode p) (Base64.encode-IsClean p h)

note_public-clean :
    (name id p : Bytes)
    → IsWord name
    → IsWord id
    → IsBytes p
    → All IsCleanByte (note_public name id p)
note_public-clean name id p hn hi hp =
    All-append IsCleanByte name _ (IsWord-clean name hn) (
      omega arith,
      All-append IsCleanByte id _ (IsWord-clean id hi) (omega arith, encode-clean p hp),
    )

note_private-clean :
    (name id p : Bytes)
    → IsWord name
    → IsWord id
    → IsBytes p
    → All IsCleanByte (note_private name id p)
note_private-clean name id p hn hi hp =
    All-append IsCleanByte (codes "PRIVATE" ++ plus ∷ (codes "KEY" ++ plus ∷ []))
      (note_public name id p) (omega arith) (note_public-clean name id p hn hi hp)

-- The payload of a key, with any tag.
pub decode_payload-encode :
    (p : Bytes) → IsBytes p → length p ≡ 33 → decode_payload (Base64.encode p) ≡ ok p
unfolding decode_payload
decode_payload-encode p h n =
    rw
      (
        trim_space_of_All (Base64.encode p) (encode-clean p h),
        decode_either,
        Base64.decode-encode p h,
      )
      (ground arith)

first_part :
    (n : ℕ) (p s : Bytes) {ps : List Bytes}
    → Lacks plus p
    → split_n plus (suc n) s ≡ ps
    → split_n plus (suc (suc n)) (p ++ plus ∷ s) ≡ p ∷ ps
first_part n p s lacks rest = split_n-append plus n p s lacks ∙ ap (λ qs. p ∷ qs) rest

last_part : (s : Bytes) → split_n plus 1 s ≡ s ∷ []
unfolding split_n
last_part s = refl

split_public :
    (name id t : Bytes)
    → IsWord name
    → IsWord id
    → split_n plus 3 (name ++ plus ∷ (id ++ plus ∷ t)) ≡ name ∷ id ∷ t ∷ []
split_public name id t hn hi =
    first_part 1 name (id ++ plus ∷ t) (IsWord-Lacks name hn)
      (first_part 0 id t (IsWord-Lacks id hi) (last_part t))

split_private :
    (name id t : Bytes)
    → IsWord name
    → IsWord id
    → split_n plus 5
        (codes "PRIVATE" ++ plus ∷ (codes "KEY" ++ plus ∷ (name ++ plus ∷ (id ++ plus ∷ t))))
      ≡ codes "PRIVATE" ∷ codes "KEY" ∷ name ∷ id ∷ t ∷ []
split_private name id t hn hi =
    let body = name ++ plus ∷ (id ++ plus ∷ t) in
    first_part 3 (codes "PRIVATE") (codes "KEY" ++ plus ∷ body) (omega arith) (
      first_part 2 (codes "KEY") body (omega arith) (
        first_part 1 name (id ++ plus ∷ t) (IsWord-Lacks name hn)
          (first_part 0 id t (IsWord-Lacks id hi) (last_part t))))

-- A private key in the note format gives the key of its seed: any plus in the base64 text stays in
-- the last part. The name and the id are printable and hold no plus, the seed has 32 bytes.
pub private_from_note_key-note_private :
    (c : Ed25519) (name id seed : Bytes) (tag : ℕ)
    → IsWord name
    → IsWord id
    → IsBytes (tag ∷ seed)
    → length seed ≡ 32
    → private_from_note_key c (note_private name id (tag ∷ seed)) ≡ ok (c.new_key_from_seed seed)
unfolding private_from_note_key
private_from_note_key-note_private c name id seed tag hn hi hs n =
    ap (λ s. private_parts c (split_n plus 5 s))
      (trim_space_of_All (note_private name id (tag ∷ seed))
        (note_private-clean name id (tag ∷ seed) hn hi hs))
    ∙ ap (private_parts c) (split_private name id (Base64.encode (tag ∷ seed)) hn hi)
    ∙ rw (decode_payload-encode (tag ∷ seed) hs (ap suc n))

-- A public key in the note format gives the bytes behind its tag.
pub public_from_note_key-note_public :
    (name id key : Bytes) (tag : ℕ)
    → IsWord name
    → IsWord id
    → IsBytes (tag ∷ key)
    → length key ≡ 32
    → public_from_note_key (note_public name id (tag ∷ key)) ≡ ok key
unfolding public_from_note_key
public_from_note_key-note_public name id key tag hn hi hk n =
    ap (λ s. public_parts (split_n plus 3 s))
      (trim_space_of_All (note_public name id (tag ∷ key))
        (note_public-clean name id (tag ∷ key) hn hi hk))
    ∙ ap public_parts (split_public name id (Base64.encode (tag ∷ key)) hn hi)
    ∙ rw (decode_payload-encode (tag ∷ key) hk (ap suc n))

-- The signer of a seed.
abbrev pub seed_signer : Ed25519 → Bytes → Bytes → Bytes → Signer
seed_signer c name id seed = record {
  vkey = note_public name id (1 ∷ c.public_of_seed seed);
  private_key = c.new_key_from_seed seed;
  public_key = c.public_of_seed seed;
}

-- A generated pair of keys makes the signer of its seed, where the name and the identifier are made of
-- ASCII characters that are no spaces, control characters or plus signs, and the seed has 32 bytes.
pub from_note_strings-note :
    (c : Ed25519)
    → IsLawful c
    → (name id seed : Bytes) → IsWord name
    → IsWord id
    → IsBytes seed
    → length seed ≡ 32
    → from_note_strings c
        (note_private name id (1 ∷ seed))
        (note_public name id (1 ∷ c.public_of_seed seed))
      ≡ ok (seed_signer c name id seed)
unfolding from_note_strings
from_note_strings-note c lawful name id seed hn hi hs n = rw (
  private_from_note_key-note_private c name id seed 1 hn hi (omega arith, hs) n,
  public_from_note_key-note_public name id (c.public_of_seed seed) 1 hn hi
      (omega arith, lawful.public_bytes seed) (lawful.length-public seed),
)

decode_either-length :
    (s raw : Bytes) → (decode_either s >>= check_payload) ≡ ok raw → length raw ≡ 33
decode_either-length s raw e = elim (Result-cases (decode_either s)) [
  | inl (r, found) ↦ ground arith
  | inr (x, failed) ↦ ground arith
]

-- Whatever text is read as a payload, it has 33 bytes, so that 32 are left for the key: the seed
-- is never one that `ed25519.NewKeyFromSeed` panics on.
pub length-decode_payload : (s raw : Bytes) → decode_payload s ≡ ok raw → length (drop 1 raw) ≡ 32
unfolding decode_payload
length-decode_payload s [] e = absurd (omega (arith, decode_either-length (trim_space s) [] e))
length-decode_payload s (c ∷ raw) e = omega (arith, decode_either-length (trim_space s) (c ∷ raw) e)
