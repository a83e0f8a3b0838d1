-- ===== src/Json/Utf8.antt =====
-- `unicode/utf8`: how many bytes the rune at the head of a text takes, and its encoding.
use tessera_transparency.Base.{
  ℕ, ◌+◌, ◌/◌, ◌%◌, ◌<◌, ◌≡◌, ◌&&◌, Bool, [], ◌∷◌, arith, Bytes, leb, ltb, ◌==◌, if◌then◌else◌,
  true, false,
}

abbrev pub is_cont : ℕ → Bool
is_cont c = leb 0x80 c && leb c 0xBF

-- The second byte of a rune of three or four bytes is bounded by the first.
abbrev pub is_second : ℕ → ℕ → Bool
is_second c d =
    if c == 0xE0
    then leb 0xA0 d && leb d 0xBF
    else if c == 0xED
    then leb 0x80 d && leb d 0x9F
    else if c == 0xF0
    then leb 0x90 d && leb d 0xBF
    else if c == 0xF4
    then leb 0x80 d && leb d 0x8F
    else is_cont d

abbrev pub is_pair : ℕ → ℕ → Bool
is_pair c d = leb 0xC2 c && leb c 0xDF && is_cont d

abbrev pub is_triple : ℕ → ℕ → ℕ → Bool
is_triple c d e = leb 0xE0 c && leb c 0xEF && (is_second c d && is_cont e)

abbrev pub is_quad : ℕ → ℕ → ℕ → ℕ → Bool
is_quad c d e f = leb 0xF0 c && leb c 0xF4 && (is_second c d && (is_cont e && is_cont f))

-- `DecodeRune` on a text whose first byte is 0x80 or more: the bytes of the rune and the rest. The
-- first is empty where the bytes are no UTF-8, and then one byte is dropped.
unfoldable pub split_rune : Bytes → Bytes × Bytes
split_rune [] = ([], [])
split_rune (c ∷ []) = ([], [])
split_rune (c ∷ d ∷ []) = if is_pair c d then (c ∷ d ∷ [], []) else ([], d ∷ [])
split_rune (c ∷ d ∷ e ∷ []) =
    if is_pair c d
    then (c ∷ d ∷ [], e ∷ [])
    else if is_triple c d e
    then (c ∷ d ∷ e ∷ [], [])
    else ([], d ∷ e ∷ [])
split_rune (c ∷ d ∷ e ∷ f ∷ s) =
    if is_pair c d
    then (c ∷ d ∷ [], e ∷ f ∷ s)
    else if is_triple c d e
    then (c ∷ d ∷ e ∷ [], f ∷ s)
    else if is_quad c d e f
    then (c ∷ d ∷ e ∷ f ∷ [], s)
    else ([], d ∷ e ∷ f ∷ s)

-- `utf8.AppendRune` of a code point that is no surrogate.
unfoldable pub encode_rune : ℕ → Bytes
encode_rune r =
    if ltb r 0x80
    then r ∷ []
    else if ltb r 0x800
    then (0xC0 + r / 64) ∷ (0x80 + r % 64) ∷ []
    else if ltb r 0x10000
    then (0xE0 + r / 4096) ∷ (0x80 + r / 64 % 64) ∷ (0x80 + r % 64) ∷ []
    else (0xF0 + r / 262144) ∷ (0x80 + r / 4096 % 64) ∷ (0x80 + r / 64 % 64) ∷ (0x80 + r % 64) ∷ []

-- Valid UTF-8.
pub data IsUtf8 : Bytes → Type 0 where
  nil : IsUtf8 []
  ascii : {c : ℕ} {s : Bytes} → c < 0x80 → IsUtf8 s → IsUtf8 (c ∷ s)
  pair : {c d : ℕ} {s : Bytes} → is_pair c d ≡ true → IsUtf8 s → IsUtf8 (c ∷ d ∷ s)
  triple : {c d e : ℕ} {s : Bytes} → is_triple c d e ≡ true → IsUtf8 s → IsUtf8 (c ∷ d ∷ e ∷ s)
  quad : {c d e f : ℕ} {s : Bytes} → is_quad c d e f ≡ true → IsUtf8 s → IsUtf8 (c ∷ d ∷ e ∷ f ∷ s)

pub split_rune_pair :
    (c d : ℕ) (s : Bytes) → is_pair c d ≡ true → split_rune (c ∷ d ∷ s) ≡ (c ∷ d ∷ [], s)
unfolding split_rune
split_rune_pair c d [] h = rw h
split_rune_pair c d (e ∷ []) h = rw h
split_rune_pair c d (e ∷ f ∷ s) h = rw h

triple→pair_false : (c d e : ℕ) → is_triple c d e ≡ true → is_pair c d ≡ false
triple→pair_false c d e h = ground arith

pub split_rune_triple :
    (c d e : ℕ) (s : Bytes)
    → is_triple c d e ≡ true
    → split_rune (c ∷ d ∷ e ∷ s) ≡ (c ∷ d ∷ e ∷ [], s)
unfolding split_rune
split_rune_triple c d e [] h = rw (triple→pair_false c d e h, h)
split_rune_triple c d e (f ∷ s) h = rw (triple→pair_false c d e h, h)

quad→others_false :
    (c d e f : ℕ) → is_quad c d e f ≡ true → (is_pair c d ≡ false) × (is_triple c d e ≡ false)
quad→others_false c d e f h = ground arith

pub split_rune_quad :
    (c d e f : ℕ) (s : Bytes)
    → is_quad c d e f ≡ true
    → split_rune (c ∷ d ∷ e ∷ f ∷ s) ≡ (c ∷ d ∷ e ∷ f ∷ [], s)
unfolding split_rune
split_rune_quad c d e f s h =
    let (no_pair, no_triple) = quad→others_false c d e f h in rw (no_pair, no_triple, h)
