-- ===== src/Text/Base64.antt =====
-- `base64.StdEncoding` and `base64.RawStdEncoding`: both decoders pass over CR and LF and ignore the
-- bits left over in the last character.
use tessera_transparency.Base.Options.{◌>>=◌}
use tessera_transparency.Base.{
  All, ne→==_false, ◌∙◌, ap, ℕ, ◌+◌, ◌-◌, ◌*◌, ◌/◌, ◌%◌, ◌<◌, ◌≡◌, refl, ◌≢◌, ◌||◌, [], ◌∷◌, Option,
  none, some, arith, Bytes, IsBytes, ltb, leb, ◌==◌, if◌then◌else◌, ◌&&◌,
}
use mathlib.Core.Option

char_of : ℕ → ℕ
char_of v =
    if ltb v 26
    then v + b'A'
    else if ltb v 52
    then v + 71
    else if ltb v 62
    then v - 4
    else if v == 62
    then b'+'
    else b'/'

sextet : ℕ → Option ℕ
sextet c =
    if leb b'A' c && leb c b'Z'
    then some (c - b'A')
    else if leb b'a' c && leb c b'z'
    then some (c - 71)
    else if leb b'0' c && leb c b'9'
    then some (c + 4)
    else if c == b'+'
    then some 62
    else if c == b'/'
    then some 63
    else none

abbrev pad : ℕ
pad = b'='

-- `EncodeToString`
unfoldable pub encode : Bytes → Bytes
unfolding char_of
encode [] = []
encode (a ∷ []) = char_of (a / 4) ∷ char_of (a % 4 * 16) ∷ pad ∷ pad ∷ []
encode (a ∷ b ∷ []) =
    char_of (a / 4) ∷ char_of (a % 4 * 16 + b / 16) ∷ char_of (b % 16 * 4) ∷ pad ∷ []
encode (a ∷ b ∷ c ∷ s) =
    char_of (a / 4)
    ∷ char_of (a % 4 * 16 + b / 16)
    ∷ char_of (b % 16 * 4 + c / 64)
    ∷ char_of (c % 64)
    ∷ encode s

skip_breaks : Bytes → Bytes
skip_breaks [] = []
skip_breaks (c ∷ s) =
    let rest = skip_breaks s in if c == b'\n' || c == b'\r' then rest else c ∷ rest

one : ℕ → ℕ → Bytes
one x y = (x * 4 + y / 16) ∷ []

two : ℕ → ℕ → ℕ → Bytes
two x y z = (x * 4 + y / 16) ∷ (y % 16 * 16 + z / 4) ∷ []

abbrev three : ℕ → ℕ → ℕ → ℕ → Bytes → Bytes
three x y z w rest = (x * 4 + y / 16) ∷ (y % 16 * 16 + z / 4) ∷ (z % 4 * 64 + w) ∷ rest

-- Four characters without padding, and the bytes that follow them.
whole : ℕ → ℕ → ℕ → ℕ → Option Bytes → Option Bytes
unfolding sextet
whole a b c d rest = do
  x ← sextet a
  y ← sextet b
  z ← sextet c
  w ← sextet d
  r ← rest
  some (three x y z w r)

-- Two or three characters.
short : ℕ → ℕ → Option Bytes
unfolding sextet one
short a b = do x ← sextet a; y ← sextet b; some (one x y)

medium : ℕ → ℕ → ℕ → Option Bytes
unfolding sextet two
medium a b c = do x ← sextet a; y ← sextet b; z ← sextet c; some (two x y z)

-- A padded quantum, `xy==` or `xyz=`, ends the text.
padded : ℕ → ℕ → ℕ → Bytes → Option Bytes
unfolding short medium
padded a b c [] = if c == pad then short a b else medium a b c
padded a b c (_ ∷ _) = none

quads : Bytes → Option Bytes
unfolding whole padded
quads [] = some []
quads (a ∷ b ∷ c ∷ d ∷ s) =
    let rest = quads s in if d == pad then padded a b c s else whole a b c d rest
quads _ = none

raw_quads : Bytes → Option Bytes
unfolding whole short medium
raw_quads [] = some []
raw_quads (_ ∷ []) = none
raw_quads (a ∷ b ∷ []) = short a b
raw_quads (a ∷ b ∷ c ∷ []) = medium a b c
raw_quads (a ∷ b ∷ c ∷ d ∷ s) = whole a b c d (raw_quads s)

-- `StdEncoding.DecodeString`
unfoldable pub decode : Bytes → Option Bytes
unfolding quads skip_breaks
decode s = quads (skip_breaks s)

-- `RawStdEncoding.DecodeString`
unfoldable pub decode_raw : Bytes → Option Bytes
unfolding raw_quads skip_breaks
decode_raw s = raw_quads (skip_breaks s)

sextet-char_of : (v : ℕ) → v < 64 → sextet (char_of v) ≡ some v
unfolding sextet char_of
sextet-char_of v h = ground arith

-- No character of the alphabet is a space, a control character or the padding.
char_of_bounds : (v : ℕ) → v < 64 → (32 < char_of v) × (char_of v < 127) × (char_of v ≢ pad)
unfolding char_of
char_of_bounds v h = ground arith

whole-char_of :
    (x y z w : ℕ) (rest : Option Bytes)
    → x < 64
    → y < 64
    → z < 64
    → w < 64
    → whole (char_of x) (char_of y) (char_of z) (char_of w) rest
      ≡ Option.map (λ r. three x y z w r) rest
unfolding whole
whole-char_of x y z w none hx hy hz hw =
    rw (sextet-char_of x hx, sextet-char_of y hy, sextet-char_of z hz, sextet-char_of w hw)
whole-char_of x y z w (some r) hx hy hz hw =
    rw (sextet-char_of x hx, sextet-char_of y hy, sextet-char_of z hz, sextet-char_of w hw)

-- Every byte above the space: nothing that a decoder or `TrimSpace` drops.
abbrev pub IsClean : Bytes → Type 0
IsClean = All (λ c. (32 < c) × (c < 127))

char_of-IsClean : (v : ℕ) → v < 64 → (32 < char_of v) × (char_of v < 127)
char_of-IsClean v h = let (lo, hi, _) = char_of_bounds v h in (lo, hi)

pub encode-IsClean : (s : Bytes) → IsBytes s → IsClean (encode s)
unfolding encode
encode-IsClean [] h = tt
encode-IsClean (a ∷ []) (ha, _) =
    ground (arith, char_of-IsClean (a / 4), char_of-IsClean (a % 4 * 16))
encode-IsClean (a ∷ b ∷ []) (ha, (hb, _)) = ground (
  arith,
  char_of-IsClean (a / 4),
  char_of-IsClean (a % 4 * 16 + b / 16),
  char_of-IsClean (b % 16 * 4),
)
encode-IsClean (a ∷ b ∷ c ∷ s) (ha, (hb, (hc, h))) = ground (
  arith,
  char_of-IsClean (a / 4),
  char_of-IsClean (a % 4 * 16 + b / 16),
  char_of-IsClean (b % 16 * 4 + c / 64),
  char_of-IsClean (c % 64),
  encode-IsClean s h,
)

skip_breaks_of_IsClean : (s : Bytes) → IsClean s → skip_breaks s ≡ s
unfolding skip_breaks
skip_breaks_of_IsClean [] h = refl
skip_breaks_of_IsClean (c ∷ s) ((lo, _), h) = ground (arith, skip_breaks_of_IsClean s h)

quads_step :
    (x y z w : ℕ) (s : Bytes)
    → x < 64
    → y < 64
    → z < 64
    → w < 64
    → quads (char_of x ∷ char_of y ∷ char_of z ∷ char_of w ∷ s)
      ≡ Option.map (λ r. three x y z w r) (quads s)
unfolding quads
quads_step x y z w s hx hy hz hw =
    let (_, _, differs) = char_of_bounds w hw in
    rw (ne→==_false _ _ differs) (whole-char_of x y z w (quads s) hx hy hz hw)

short-char_of : (x y : ℕ) → x < 64 → y < 64 → short (char_of x) (char_of y) ≡ some (one x y)
unfolding short
short-char_of x y hx hy = rw (sextet-char_of x hx, sextet-char_of y hy)

medium-char_of :
    (x y z : ℕ)
    → x < 64
    → y < 64
    → z < 64
    → medium (char_of x) (char_of y) (char_of z) ≡ some (two x y z)
unfolding medium
medium-char_of x y z hx hy hz = rw (sextet-char_of x hx, sextet-char_of y hy, sextet-char_of z hz)

one_lem : (a : ℕ) → one (a / 4) (a % 4 * 16) ≡ a ∷ []
unfolding one
one_lem a = ground arith

two_lem : (a b : ℕ) → b < 256 → two (a / 4) (a % 4 * 16 + b / 16) (b % 16 * 4) ≡ a ∷ b ∷ []
unfolding two
two_lem a b h = ground arith

three_lem :
    (a b c : ℕ) (s : Bytes)
    → b < 256
    → c < 256
    → three (a / 4) (a % 4 * 16 + b / 16) (b % 16 * 4 + c / 64) (c % 64) s ≡ a ∷ b ∷ c ∷ s
three_lem a b c s hb hc = ground arith

quads-encode : (s : Bytes) → IsBytes s → quads (encode s) ≡ some s
unfolding encode
quads-encode [] h = unfold quads in refl
quads-encode (a ∷ []) (ha, _) =
    unfold quads padded in
    short-char_of (a / 4) (a % 4 * 16) (omega arith) (omega arith) ∙ ap some (one_lem a)
quads-encode (a ∷ b ∷ []) (ha, (hb, _)) =
    let (_, _, differs) = char_of_bounds (b % 16 * 4) (omega arith) in
    unfold quads padded in
    rw (ne→==_false _ _ differs) (
      medium-char_of (a / 4) (a % 4 * 16 + b / 16) (b % 16 * 4) (omega arith) (omega arith)
        (omega arith)
      ∙ ap some (two_lem a b hb))
quads-encode (a ∷ b ∷ c ∷ s) (ha, (hb, (hc, h))) =
    quads_step (a / 4) (a % 4 * 16 + b / 16) (b % 16 * 4 + c / 64) (c % 64) (encode s) (omega arith)
      (omega arith) (omega arith) (omega arith)
    ∙ rw (quads-encode s h) (ap some (three_lem a b c s hb hc))

-- Decoding undoes encoding.
pub decode-encode : (s : Bytes) → IsBytes s → decode (encode s) ≡ some s
unfolding decode
decode-encode s h = rw (skip_breaks_of_IsClean _ (encode-IsClean s h)) (quads-encode s h)
