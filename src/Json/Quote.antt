-- ===== src/Json/Quote.antt =====
-- Strings of JSON: `appendString` with HTML escaping, the scanner that finds the closing quote, and
-- `unquote`.
pub mod RoundTrip
use tessera_transparency.Base.Options.{◌>>=◌}
use tessera_transparency.Base.{
  ℕ, zero, suc, ◌+◌, ◌-◌, ◌*◌, ◌/◌, ◌%◌, ◌≡◌, refl, ◌&&◌, ◌||◌, Bool, [], ◌∷◌, ◌++◌, Option, none,
  some, Bytes, leb, ltb, ◌==◌, if◌then◌else◌, true, false, codes, length,
}
use mathlib.Core.Option
use tessera_transparency.Json.Utf8.{split_rune, encode_rune}

abbrev pub quote_mark : ℕ
quote_mark = 34

abbrev pub backslash : ℕ
backslash = 92

abbrev hex_digit : ℕ → ℕ
hex_digit v = if ltb v 10 then v + b'0' else v + 87

-- `htmlSafeSet`
abbrev is_safe : ℕ → Bool
is_safe c =
    if ltb c 32
    then false
    else if c == quote_mark || c == backslash || c == b'<' || c == b'>' || c == b'&'
    then false
    else true

-- A byte below 0x80.
pub escape_byte : ℕ → Bytes
escape_byte c =
    if is_safe c
    then c ∷ []
    else if c == quote_mark || c == backslash
    then backslash ∷ c ∷ []
    else if c == 8
    then backslash ∷ b'b' ∷ []
    else if c == 12
    then backslash ∷ b'f' ∷ []
    else if c == 10
    then backslash ∷ b'n' ∷ []
    else if c == 13
    then backslash ∷ b'r' ∷ []
    else if c == 9
    then backslash ∷ b't' ∷ []
    else backslash ∷ b'u' ∷ b'0' ∷ b'0' ∷ hex_digit (c / 16) ∷ hex_digit (c % 16) ∷ []

-- A rune of several bytes: the line separators are escaped, bytes that are no UTF-8 are replaced.
pub escape_rune : Bytes → Bytes
escape_rune [] = backslash ∷ codes "ufffd"
escape_rune (c ∷ d ∷ e ∷ []) =
    if c == 0xE2 && d == 0x80 && (e == 0xA8 || e == 0xA9)
    then backslash ∷ b'u' ∷ b'2' ∷ b'0' ∷ b'2' ∷ hex_digit (e % 16) ∷ []
    else c ∷ d ∷ e ∷ []
escape_rune r = r

-- The loop over the text; its length is enough fuel.
pub escape_from : ℕ → Bytes → Bytes
escape_from zero s = []
escape_from (suc f) [] = []
escape_from (suc f) (c ∷ s) =
    let (r, rest) = split_rune (c ∷ s) in
    let plain = escape_byte c ++ escape_from f s in
    let wide = escape_rune r ++ escape_from f rest in if ltb c 0x80 then plain else wide

unfoldable pub escape : Bytes → Bytes
unfolding escape_from escape_byte escape_rune split_rune
escape s = escape_from (length s) s

abbrev pub quote : Bytes → Bytes
quote s = quote_mark ∷ (escape s ++ quote_mark ∷ [])

-- The text up to the closing quote, and the rest. The flag says that a backslash stands before.
unfoldable pub raw_string : Bool → Bytes → Option (Bytes × Bytes)
raw_string escaped [] = none
raw_string true (c ∷ s) = Option.map (λ (raw, rest). (c ∷ raw, rest)) (raw_string false s)
raw_string false (c ∷ s) =
    let more = Option.map (λ (raw, rest). (c ∷ raw, rest)) (raw_string (c == backslash) s) in
    if c == quote_mark then some ([], s) else more

abbrev hex_value : ℕ → Option ℕ
hex_value c =
    if leb b'0' c && leb c b'9'
    then some (c - b'0')
    else if leb b'a' c && leb c b'f'
    then some (c - 87)
    else if leb b'A' c && leb c b'F'
    then some (c - 55)
    else none

-- `getu4`: four hexadecimal digits, and the rest.
pub get_u4 : Bytes → Option (ℕ × Bytes)
get_u4 (a ∷ b ∷ c ∷ d ∷ s) = do
  w ← hex_value a
  x ← hex_value b
  y ← hex_value c
  z ← hex_value d
  some (((w * 16 + x) * 16 + y) * 16 + z, s)
get_u4 _ = none

abbrev is_surrogate : ℕ → Bool
is_surrogate r = leb 0xD800 r && ltb r 0xE000

in_low_range : ℕ × Bytes → Option (ℕ × Bytes)
in_low_range (r, rest) = if leb 0xDC00 r && ltb r 0xE000 then some (r, rest) else none

-- The second half of a surrogate pair, if it stands there.
low_half : Bytes → Option (ℕ × Bytes)
unfolding get_u4 in_low_range
low_half (c ∷ d ∷ s) =
    let found = get_u4 s >>= in_low_range in if c == backslash && d == b'u' then found else none
low_half _ = none

abbrev pub replacement : Bytes
replacement = 0xEF ∷ 0xBF ∷ 0xBD ∷ []

code_point : ℕ → Bytes → Bytes × Bytes
unfolding low_half encode_rune
code_point r s =
    if is_surrogate r
    then (if ltb r 0xDC00
        then elim (low_half s) [
          | none ↦ (replacement, s)
          | some (low, rest) ↦ (encode_rune ((r - 0xD800) * 1024 + (low - 0xDC00) + 0x10000), rest)
        ]
        else (replacement, s))
    else (encode_rune r, s)

-- What stands behind a backslash: the bytes that it means, and the rest.
pub unescape : Bytes → Option (Bytes × Bytes)
unfolding code_point
unescape [] = none
unescape (c ∷ s) =
    if c == quote_mark || c == backslash || c == b'/'
    then some (c ∷ [], s)
    else if c == b'b'
    then some (8 ∷ [], s)
    else if c == b'f'
    then some (12 ∷ [], s)
    else if c == b'n'
    then some (10 ∷ [], s)
    else if c == b'r'
    then some (13 ∷ [], s)
    else if c == b't'
    then some (9 ∷ [], s)
    else if c == b'u'
    then Option.map (λ (r, rest). code_point r rest) (get_u4 s)
    else none

-- A rune of several bytes is copied, and a byte that is no UTF-8 is replaced.
pub copy_rune : Bytes → Bytes
copy_rune [] = replacement
copy_rune r = r

-- The first character of the raw text: the bytes that it means, and the rest.
pub unquote_step : ℕ → Bytes → Option (Bytes × Bytes)
unquote_step c s =
    if c == backslash
    then unescape s
    else if ltb c 32
    then none
    else if ltb c 0x80
    then some (c ∷ [], s)
    else (let (r, rest) = split_rune (c ∷ s) in some (copy_rune r, rest))

pub unquote_from : ℕ → Bytes → Option Bytes
unquote_from f [] = some []
unquote_from zero (c ∷ s) = none
unquote_from (suc f) (c ∷ s) = elim (unquote_step c s) [
  | none ↦ none
  | some (out, rest) ↦ Option.map (λ t. out ++ t) (unquote_from f rest)
]

-- The text between the quotes; every round takes a byte or more, so its length is enough fuel.
unfoldable pub unquote : Bytes → Option Bytes
unfolding unquote_from unquote_step unescape copy_rune split_rune
unquote raw = unquote_from (length raw) raw

tests :
    (escape (codes "a<\n" ++ 0xE2 ∷ 0x80 ∷ 0xA8 ∷ 0xFF ∷ []) ≡ codes "a\\u003c\\n\\u2028\\ufffd")
    × (unquote (codes "\\ud83d\\ude00\\/") ≡ some (0xF0 ∷ 0x9F ∷ 0x98 ∷ 0x80 ∷ b'/' ∷ []))
    × (unquote (codes "\\ud83dx") ≡ some (0xEF ∷ 0xBF ∷ 0xBD ∷ b'x' ∷ []))
unfolding escape unquote
tests = (refl, refl, refl)
