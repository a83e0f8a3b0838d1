-- ===== src/Json/Quote/RoundTrip.antt =====
-- Reading back an escaped string.
use tessera_transparency.Base.{
  ℕ, zero, suc, ◌≤◌, ◌<◌, ◌≡◌, refl, ◌&&◌, ◌||◌, Bool, [], ◌∷◌, ◌++◌, append_assoc, Option, none,
  some, arith, Bytes, ltb, lt→ltb, ltb→lt, ◌==◌, true, false, length, length-append, All,
  Bool-cases, inl, inr,
}
use tessera_transparency.Json.Utf8.{
  split_rune, encode_rune, IsUtf8, nil, ascii, pair, triple, quad, is_pair, is_triple, is_quad,
  split_rune_pair, split_rune_triple, split_rune_quad,
}
use tessera_transparency.Json.Quote.{
  quote_mark, escape_byte, escape_rune, escape_from, escape, raw_string, unquote_step, unquote_from,
  unquote, copy_rune, unescape, code_point, get_u4, is_safe, backslash, hex_digit, hex_value,
}

hex_value-hex_digit : (v : ℕ) → v < 16 → hex_value (hex_digit v) ≡ some v
hex_value-hex_digit v h = ground arith

unquote_head : Bytes → Option (Bytes × Bytes)
unquote_head [] = none
unquote_head (c ∷ s) = unquote_step c s

unquote_head-safe :
    (c : ℕ) (t : Bytes)
    → c < 128
    → is_safe c ≡ true
    → unquote_head (escape_byte c ++ t) ≡ some (c ∷ [], t)
unfolding unquote_head unquote_step escape_byte
unquote_head-safe c t h safe = ground arith

unquote_head-byte :
    (c : ℕ) (t : Bytes)
    → c < 128
    → is_safe c ≡ false
    → unquote_head (escape_byte c ++ t) ≡ some (c ∷ [], t)
unfolding unquote_head unquote_step escape_byte unescape get_u4 code_point encode_rune
unquote_head-byte c t h safe = ground arith

unquote_head-escape_byte :
    (c : ℕ) (t : Bytes) → c < 128 → unquote_head (escape_byte c ++ t) ≡ some (c ∷ [], t)
unquote_head-escape_byte c t h = elim (Bool-cases (is_safe c)) [
  | inl safe ↦ unquote_head-safe c t h safe
  | inr unsafe ↦ unquote_head-byte c t h unsafe
]

length-escape_byte : (c : ℕ) → 0 < length (escape_byte c)
unfolding escape_byte
length-escape_byte c = ground arith

unquote_head-pair :
    (c d : ℕ) (t : Bytes) → is_pair c d ≡ true → unquote_head (c ∷ d ∷ t) ≡ some (c ∷ d ∷ [], t)
unfolding unquote_head unquote_step copy_rune
unquote_head-pair c d t h =
    let low : (c == backslash) ≡ false = ground arith in
    let printable : ltb c 32 ≡ false = ground arith in
    let wide : ltb c 0x80 ≡ false = ground arith in
    rw (low, printable, wide, split_rune_pair c d t h)

unquote_head-quad :
    (c d e f : ℕ) (t : Bytes)
    → is_quad c d e f ≡ true
    → unquote_head (c ∷ d ∷ e ∷ f ∷ t) ≡ some (c ∷ d ∷ e ∷ f ∷ [], t)
unfolding unquote_head unquote_step copy_rune
unquote_head-quad c d e f t h =
    let low : (c == backslash) ≡ false = ground arith in
    let printable : ltb c 32 ≡ false = ground arith in
    let wide : ltb c 0x80 ≡ false = ground arith in
    rw (low, printable, wide, split_rune_quad c d e f t h)

unquote_head_plain_triple :
    (c d e : ℕ) (t : Bytes)
    → is_triple c d e ≡ true
    → unquote_head (c ∷ d ∷ e ∷ t) ≡ some (c ∷ d ∷ e ∷ [], t)
unfolding unquote_head unquote_step copy_rune
unquote_head_plain_triple c d e t h =
    let low : (c == backslash) ≡ false = ground arith in
    let printable : ltb c 32 ≡ false = ground arith in
    let wide : ltb c 0x80 ≡ false = ground arith in
    rw (low, printable, wide, split_rune_triple c d e t h)

abbrev is_separator : ℕ → ℕ → ℕ → Bool
is_separator c d e = c == 0xE2 && d == 0x80 && (e == 0xA8 || e == 0xA9)

unquote_head-separator :
    (c d e : ℕ) (t : Bytes)
    → is_separator c d e ≡ true
    → unquote_head (escape_rune (c ∷ d ∷ e ∷ []) ++ t) ≡ some (c ∷ d ∷ e ∷ [], t)
unfolding unquote_head unquote_step escape_rune unescape get_u4 code_point encode_rune
unquote_head-separator c d e t h = ground arith

unquote_head-triple :
    (c d e : ℕ) (t : Bytes)
    → is_triple c d e ≡ true
    → unquote_head (escape_rune (c ∷ d ∷ e ∷ []) ++ t) ≡ some (c ∷ d ∷ e ∷ [], t)
unquote_head-triple c d e t h = elim (Bool-cases (is_separator c d e)) [
  | inl sep ↦ unquote_head-separator c d e t sep
  | inr other ↦ unfold escape_rune in rw other (unquote_head_plain_triple c d e t h)
]

length-escape_rune_triple : (c d e : ℕ) → 0 < length (escape_rune (c ∷ d ∷ e ∷ []))
unfolding escape_rune
length-escape_rune_triple c d e = ground arith

-- One round of `unquote`, on a text whose first character is known.
unquote_from_step :
    (f : ℕ) (chunk out t s : Bytes)
    → unquote_head (chunk ++ t) ≡ some (out, t)
    → 0 < length chunk
    → length (chunk ++ t) ≤ f
    → ((k : ℕ) → length t ≤ k → unquote_from k t ≡ some s)
    → unquote_from f (chunk ++ t) ≡ some (out ++ s)
unfolding unquote_from unquote_head
unquote_from_step f [] out t s first filled enough rest = absurd (omega arith)
unquote_from_step zero (c ∷ chunk) out t s first filled enough rest = absurd (omega arith)
unquote_from_step (suc f) (c ∷ chunk) out t s first filled enough rest =
    rw (first, unquote_from) (rw (rest f (omega (arith, length-append chunk t))))

escape_from-ascii :
    (g c : ℕ) (s : Bytes) → c < 128 → escape_from (suc g) (c ∷ s) ≡ escape_byte c ++ escape_from g s
unfolding escape_from
escape_from-ascii g c s h = rw (lt→ltb c 128 h)

escape_from-rune :
    (g c : ℕ) (s r rest : Bytes)
    → 127 < c
    → split_rune (c ∷ s) ≡ (r, rest)
    → escape_from (suc g) (c ∷ s) ≡ escape_rune r ++ escape_from g rest
unfolding escape_from
escape_from-rune g c s r rest wide e = let high : ltb c 0x80 ≡ false = ground arith in rw (high, e)

unquote_from-escape_from :
    {s : Bytes}
    → IsUtf8 s
    → (g f : ℕ) → length s ≤ g
    → length (escape_from g s) ≤ f
    → unquote_from f (escape_from g s) ≡ some s
unquote_from-escape_from nil zero f hg hf = unfold escape_from unquote_from in refl
unquote_from-escape_from nil (suc g) f hg hf = unfold escape_from unquote_from in refl
unquote_from-escape_from (ascii {c} {s} h v) zero f hg hf = absurd (omega arith)
unquote_from-escape_from (ascii {c} {s} h v) (suc g) f hg hf =
    let e = escape_from-ascii g c s h in
    rw e (
      unquote_from_step f (escape_byte c) (c ∷ []) (escape_from g s) s
        (unquote_head-escape_byte c _ h) (length-escape_byte c) (rw e at hf)
        (λ k enough. unquote_from-escape_from v g k (omega arith) enough))
unquote_from-escape_from (pair {c} {d} {s} h v) zero f hg hf = absurd (omega arith)
unquote_from-escape_from (pair {c} {d} {s} h v) (suc g) f hg hf =
    let wide : 127 < c = ground arith in
    let e = escape_from-rune g c (d ∷ s) (c ∷ d ∷ []) s wide (split_rune_pair c d s h) in
    rw e (
      unquote_from_step f (escape_rune (c ∷ d ∷ [])) (c ∷ d ∷ []) (escape_from g s) s
        (unfold escape_rune in unquote_head-pair c d _ h) (unfold escape_rune in omega arith)
        (rw e at hf) (λ k enough. unquote_from-escape_from v g k (omega arith) enough))
unquote_from-escape_from (triple {c} {d} {e} {s} h v) zero f hg hf = absurd (omega arith)
unquote_from-escape_from (triple {c} {d} {e} {s} h v) (suc g) f hg hf =
    let wide : 127 < c = ground arith in
    let q =
      escape_from-rune g c (d ∷ e ∷ s) (c ∷ d ∷ e ∷ []) s wide (split_rune_triple c d e s h) in
    rw q (
      unquote_from_step f (escape_rune (c ∷ d ∷ e ∷ [])) (c ∷ d ∷ e ∷ []) (escape_from g s) s
        (unquote_head-triple c d e _ h) (length-escape_rune_triple c d e) (rw q at hf)
        (λ k enough. unquote_from-escape_from v g k (omega arith) enough))
unquote_from-escape_from (quad {c} {d} {e} {f = b} {s} h v) zero f hg hf = absurd (omega arith)
unquote_from-escape_from (quad {c} {d} {e} {f = b} {s} h v) (suc g) f hg hf =
    let wide : 127 < c = ground arith in
    let q =
      escape_from-rune g c (d ∷ e ∷ b ∷ s) (c ∷ d ∷ e ∷ b ∷ []) s wide
        (split_rune_quad c d e b s h) in
    rw q (
      unquote_from_step f (escape_rune (c ∷ d ∷ e ∷ b ∷ [])) (c ∷ d ∷ e ∷ b ∷ []) (escape_from g s)
        s (unfold escape_rune in unquote_head-quad c d e b _ h) (unfold escape_rune in omega arith)
        (rw q at hf) (λ k enough. unquote_from-escape_from v g k (omega arith) enough))

-- Valid UTF-8 survives escaping, whatever characters it holds.
pub unquote-escape : (s : Bytes) → IsUtf8 s → unquote (escape s) ≡ some s
unquote-escape s v =
    unfold escape in
    unfold unquote in
    unquote_from-escape_from v (length s) (length (escape_from (length s) s)) (omega arith)
      (omega arith)

-- What the scanner passes over: no bare quotation mark, and no backslash at the end.
abbrev IsPassed : Bytes → Type 0
IsPassed chunk =
    (t raw rest : Bytes)
    → raw_string false t ≡ some (raw, rest)
    → raw_string false (chunk ++ t) ≡ some (chunk ++ raw, rest)

escape_byte-IsPassed : (c : ℕ) → c < 128 → IsPassed (escape_byte c)
unfolding raw_string escape_byte
escape_byte-IsPassed c h t raw rest e = ground arith

abbrev IsWide : ℕ → Type 0
IsWide c = 127 < c

wide-IsPassed : (r : Bytes) → All IsWide r → IsPassed r
unfolding raw_string
wide-IsPassed [] h t raw rest e = e
wide-IsPassed (c ∷ r) (wide, h) t raw rest e =
    let plain : (c == quote_mark) ≡ false = ground arith in
    let free : (c == backslash) ≡ false = ground arith in
    rw (plain, free, wide-IsPassed r h t raw rest e)

split_rune-IsWide : (c : ℕ) (s : Bytes) → 127 < c → All IsWide (split_rune (c ∷ s)).0
unfolding split_rune
split_rune-IsWide c [] h = tt
split_rune-IsWide c (d ∷ []) h = ground arith
split_rune-IsWide c (d ∷ e ∷ []) h = ground arith
split_rune-IsWide c (d ∷ e ∷ f ∷ s) h = ground arith

escape_rune-IsPassed : (r : Bytes) → All IsWide r → IsPassed (escape_rune r)
unfolding escape_rune
escape_rune-IsPassed [] h = unfold raw_string in λ t raw rest e. rw e
escape_rune-IsPassed (c ∷ []) h = wide-IsPassed (c ∷ []) h
escape_rune-IsPassed (c ∷ d ∷ []) h = wide-IsPassed (c ∷ d ∷ []) h
escape_rune-IsPassed (c ∷ d ∷ e ∷ []) h = elim (Bool-cases (is_separator c d e)) [
  | inl sep ↦ rw sep (unfold raw_string in λ t raw rest q. ground arith)
  | inr other ↦ rw other (wide-IsPassed (c ∷ d ∷ e ∷ []) h)
]
escape_rune-IsPassed (c ∷ d ∷ e ∷ f ∷ r) h = wide-IsPassed (c ∷ d ∷ e ∷ f ∷ r) h

raw_string-escape_from :
    (g : ℕ) (s rest : Bytes)
    → raw_string false (escape_from g s ++ quote_mark ∷ rest) ≡ some (escape_from g s, rest)
raw_string-escape_from zero s rest = unfold escape_from raw_string in refl
raw_string-escape_from (suc g) [] rest = unfold escape_from raw_string in refl
raw_string-escape_from (suc g) (c ∷ s) rest = elim (Bool-cases (ltb c 128)) [
  | inl low ↦
      let h = ltb→lt c 128 low in
      rw (escape_from-ascii g c s h, append_assoc)
        (escape_byte-IsPassed c h _ _ rest (raw_string-escape_from g s rest))
  | inr high ↦
      let wide : 127 < c = ground arith in
      let (r, more) = split_rune (c ∷ s) in
      rw (escape_from-rune g c s r more wide refl, append_assoc)
        (escape_rune-IsPassed r (split_rune-IsWide c s wide) _ _ rest
          (raw_string-escape_from g more rest))
]

-- The scanner finds the closing quote of an escaped text, of any bytes.
pub raw_string-escape :
    (s rest : Bytes) → raw_string false (escape s ++ quote_mark ∷ rest) ≡ some (escape s, rest)
raw_string-escape s rest = unfold escape in raw_string-escape_from (length s) s rest
