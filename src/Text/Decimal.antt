-- ===== src/Text/Decimal.antt =====
-- Decimal numbers of 64 bits: `%d`, `strconv.Itoa`, `json` numbers, and `strconv.ParseUint(s, 10, 64)`.
use tessera_transparency.Base.{
  ℕ, zero, suc, ◌+◌, ◌-◌, ◌*◌, ◌/◌, ◌%◌, ◌^◌, ◌≤◌, ◌<◌, ◌≡◌, refl, ◌≢◌, ◌||◌, [], ◌∷◌, arith, Bytes,
  Result, ok, err, ltb, leb, if◌then◌else◌, All, Bool-cases, inl, inr, codes, lt→ltb, ltb→lt, ◌∙◌,
}
use native.Mathlib.Nat.{pow-suc}

abbrev pub max_u64 : ℕ
max_u64 = 2 ^ 64 - 1

abbrev pub digit : ℕ → ℕ
digit n = b'0' + n % 10

-- The digits of `n` in front of `out`; the fuel is the largest number of digits.
unfoldable pub emit : ℕ → ℕ → Bytes → Bytes
emit zero n out = out
emit (suc f) n out =
    let more = emit f (n / 10) (digit n ∷ out) in if ltb n 10 then digit n ∷ out else more

-- Twenty digits hold every number of 64 bits.
unfoldable pub format : ℕ → Bytes
unfolding emit
format n = emit 20 n []

pub data NumError : Type 0 where
  syntax range : NumError

-- The loop of `ParseUint`: `cutoff` is `maxUint64/10 + 1`, and the sum is taken in 64 bits.
scan : Bytes → ℕ → Result NumError ℕ
scan [] n = ok n
scan (c ∷ s) n =
    let n10 = n * 10 % 2 ^ 64 in
    let n1 = (n10 + (c - b'0')) % 2 ^ 64 in
    let rest = scan s n1 in
    if ltb c b'0' || ltb b'9' c
    then err syntax
    else if leb (max_u64 / 10 + 1) n
    then err range
    else if ltb n1 n10 || ltb max_u64 n1
    then err range
    else rest

unfoldable pub parse : Bytes → Result NumError ℕ
unfolding scan
parse [] = err syntax
parse (c ∷ s) = scan (c ∷ s) 0

abbrev pub IsDigit : ℕ → Type 0
IsDigit c = (b'0' ≤ c) × (c ≤ b'9')

scan_last : (n : ℕ) (out : Bytes) → n ≤ max_u64 → scan (digit n ∷ out) (n / 10) ≡ scan out n
unfolding scan
scan_last n out h = ground arith

scan_first : (n : ℕ) (out : Bytes) → n < 10 → scan (digit n ∷ out) 0 ≡ scan out n
unfolding scan
scan_first n out h = ground arith

scan-emit :
    (f n : ℕ) (out : Bytes)
    → n < 10 ^ suc f
    → n ≤ max_u64
    → scan (emit (suc f) n out) 0 ≡ scan out n
unfolding emit
scan-emit zero n out small fits =
    let lt : n < 10 = small in rw (lt→ltb n 10 lt) (scan_first n out lt)
scan-emit (suc f) n out small fits = elim (Bool-cases (ltb n 10)) [
  | inl lt ↦ rw lt (scan_first n out (ltb→lt n 10 lt))
  | inr ge ↦ rw ge (
      scan-emit f (n / 10) (digit n ∷ out) (omega (arith, pow-suc 10 (suc f))) (omega arith)
      ∙ scan_last n out fits)
]

emit-ne-nil : (f n : ℕ) (out : Bytes) → emit (suc f) n out ≢ []
unfolding emit
emit-ne-nil zero n out = ground arith
emit-ne-nil (suc f) n out = ground (arith, emit-ne-nil f (n / 10) (digit n ∷ out))

parse-scan : (s : Bytes) → s ≢ [] → parse s ≡ scan s 0
unfolding parse
parse-scan [] h = absurd (h refl)
parse-scan (c ∷ s) h = refl

-- Every number of 64 bits is read back from its print.
pub parse-format : (n : ℕ) → n ≤ max_u64 → parse (format n) ≡ ok n
unfolding format
parse-format n fits =
    parse-scan (emit 20 n []) (emit-ne-nil 19 n [])
    ∙ scan-emit 19 n [] (omega arith) fits
    ∙ (unfold scan in refl)

emit-IsDigit : (f n : ℕ) (out : Bytes) → All IsDigit out → All IsDigit (emit f n out)
unfolding emit
emit-IsDigit zero n out h = h
emit-IsDigit (suc f) n out h = ground (arith, emit-IsDigit f (n / 10) (digit n ∷ out))

pub format-IsDigit : (n : ℕ) → All IsDigit (format n)
unfolding format
format-IsDigit n = emit-IsDigit 20 n [] tt

pub format-ne-nil : (n : ℕ) → format n ≢ []
unfolding format
format-ne-nil n = emit-ne-nil 19 n []

tests :
    (parse (codes "18446744073709551615") ≡ ok max_u64)
    × (parse (codes "18446744073709551616") ≡ err range)
    × (parse (codes "-1") ≡ err syntax)
    × (format 1000 ≡ codes "1000")
unfolding parse format
tests = (refl, refl, refl, refl)
