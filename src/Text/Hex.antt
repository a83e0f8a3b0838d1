-- ===== src/Text/Hex.antt =====
-- `hex.EncodeToString` and `hex.DecodeString`.
use tessera_transparency.Base.Options.{◌>>=◌}
use tessera_transparency.Base.{
  ℕ, ◌+◌, ◌-◌, ◌*◌, ◌/◌, ◌%◌, ◌<◌, ◌≡◌, refl, ◌&&◌, [], ◌∷◌, Option, none, some, arith, Bytes,
  IsBytes, ltb, leb, if◌then◌else◌, length, All,
}

digit : ℕ → ℕ
digit v = if ltb v 10 then v + b'0' else v + 87

nibble : ℕ → Option ℕ
nibble c =
    if leb b'0' c && leb c b'9'
    then some (c - b'0')
    else if leb b'a' c && leb c b'f'
    then some (c - 87)
    else if leb b'A' c && leb c b'F'
    then some (c - 55)
    else none

unfoldable pub encode : Bytes → Bytes
unfolding digit
encode [] = []
encode (b ∷ s) = digit (b / 16) ∷ digit (b % 16) ∷ encode s

-- An error on a byte that is no digit and on a text of odd length.
unfoldable pub decode : Bytes → Option Bytes
unfolding nibble
decode [] = some []
decode (_ ∷ []) = none
decode (c ∷ d ∷ s) = do hi ← nibble c; lo ← nibble d; rest ← decode s; some ((hi * 16 + lo) ∷ rest)

-- A pair of digits in front of what is decoded behind it.
pair_front : Option ℕ → Option ℕ → Bytes → Bytes
pair_front (some hi) (some lo) rest = (hi * 16 + lo) ∷ rest
pair_front (some hi) none rest = []
pair_front none lo rest = []

-- What `hex.DecodeString` returns beside its error, for code that drops the error: the bytes in front
-- of the first bad pair.
unfoldable pub decode_front : Bytes → Bytes
unfolding nibble pair_front
decode_front [] = []
decode_front (_ ∷ []) = []
decode_front (c ∷ d ∷ s) = pair_front (nibble c) (nibble d) (decode_front s)

nibble-digit : (v : ℕ) → v < 16 → nibble (digit v) ≡ some v
unfolding nibble digit
nibble-digit v h = ground arith

byte_of_nibbles : (b : ℕ) → b / 16 * 16 + b % 16 ≡ b
byte_of_nibbles b = omega arith

-- Decoding undoes encoding.
pub decode-encode : (s : Bytes) → IsBytes s → decode (encode s) ≡ some s
unfolding decode encode
decode-encode [] h = refl
decode-encode (b ∷ s) (hb, h) = rw (
  nibble-digit (b / 16) (omega arith),
  nibble-digit (b % 16) (omega arith),
  decode-encode s h,
  byte_of_nibbles b,
)

pub decode_front-encode : (s : Bytes) → IsBytes s → decode_front (encode s) ≡ s
unfolding decode_front encode
decode_front-encode [] h = refl
decode_front-encode (b ∷ s) (hb, h) = rw (
  nibble-digit (b / 16) (omega arith),
  nibble-digit (b % 16) (omega arith),
  decode_front-encode s h,
  byte_of_nibbles b,
)

pub length-encode : (s : Bytes) → length (encode s) ≡ 2 * length s
unfolding encode
length-encode [] = refl
length-encode (b ∷ s) = omega (arith, length-encode s)

-- The text is ASCII.
pub encode-IsAscii : (s : Bytes) → IsBytes s → All (λ c. c < 128) (encode s)
unfolding encode digit
encode-IsAscii [] h = tt
encode-IsAscii (b ∷ s) (hb, h) = ground (arith, encode-IsAscii s h)
