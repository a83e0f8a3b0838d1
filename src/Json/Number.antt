-- ===== src/Json/Number.antt =====
-- The number literals of JSON, as the scanner of `encoding/json` accepts them.
use tessera_transparency.Base.{
  ℕ, zero, suc, ◌≤◌, ◌<◌, ◌≡◌, refl, ◌≢◌, ◌&&◌, ◌||◌, ◌⊎◌, inl, inr, Bool, false, [], ◌∷◌, ◌++◌,
  Option, none, some, arith, Bytes, leb, ◌==◌, if◌then◌else◌, All, append-nil, ◌/◌, ◌^◌, ltb,
  ltb→lt, lt→ltb, Bool-cases,
}
use mathlib.Core.Option
use native.Mathlib.Nat.{pow-suc}
use tessera_transparency.Text.Decimal.{IsDigit, format, emit, digit}

abbrev is_digit : ℕ → Bool
is_digit c = leb b'0' c && leb c b'9'

pub span_digits : Bytes → Bytes × Bytes
span_digits [] = ([], [])
span_digits (c ∷ s) =
    let (ds, rest) = span_digits s in if is_digit c then (c ∷ ds, rest) else ([], c ∷ s)

-- One digit or more, which `lead` stands before.
digits_behind : Bytes → Bytes → Option (Bytes × Bytes)
digits_behind lead [] = none
digits_behind lead (c ∷ s) =
    let (ds, rest) = span_digits s in if is_digit c then some (lead ++ c ∷ ds, rest) else none

integer : Bytes → Option (Bytes × Bytes)
unfolding digits_behind
integer [] = none
integer (c ∷ s) = if c == b'0' then some (c ∷ [], s) else digits_behind [] (c ∷ s)

fraction : Bytes → Option (Bytes × Bytes)
unfolding digits_behind
fraction [] = some ([], [])
fraction (c ∷ s) = if c == b'.' then digits_behind (c ∷ []) s else some ([], c ∷ s)

exponent : Bytes → Option (Bytes × Bytes)
unfolding digits_behind
exponent [] = some ([], [])
exponent (c ∷ []) = if c == b'e' || c == b'E' then none else some ([], c ∷ [])
exponent (c ∷ d ∷ s) =
    if c == b'e' || c == b'E'
    then (if d == b'+' || d == b'-'
        then digits_behind (c ∷ d ∷ []) s
        else digits_behind (c ∷ []) (d ∷ s))
    else some ([], c ∷ d ∷ s)

-- A part of the literal, and what another scanner finds behind it.
then_scan : (Bytes → Option (Bytes × Bytes)) → Option (Bytes × Bytes) → Option (Bytes × Bytes)
then_scan scan none = none
then_scan scan (some (part, s)) = Option.map (λ (more, rest). (part ++ more, rest)) (scan s)

unsigned : Bytes → Option (Bytes × Bytes)
unfolding integer fraction exponent then_scan
unsigned s = then_scan exponent (then_scan fraction (integer s))

unfoldable pub scan_number : Bytes → Option (Bytes × Bytes)
unfolding unsigned span_digits
scan_number [] = none
scan_number (c ∷ s) =
    if c == b'-'
    then Option.map (λ (more, rest). (c ∷ more, rest)) (unsigned s)
    else unsigned (c ∷ s)

-- What may follow a literal: nothing that continues a number.
abbrev pub IsEnd : Bytes → Type 0
IsEnd [] = Unit
IsEnd (c ∷ s) = ((c < b'0') ⊎ (b'9' < c)) × (c ≢ b'.') × (c ≢ b'e') × (c ≢ b'E')

-- Digits without a leading zero.
abbrev pub IsNumeral : Bytes → Type 0
IsNumeral [] = ⊥
IsNumeral (c ∷ s) = ((c ≡ b'0') × (s ≡ [])) ⊎ ((b'1' ≤ c) × (c ≤ b'9') × All IsDigit s)

span_digits-append :
    (ds rest : Bytes) → All IsDigit ds → IsEnd rest → span_digits (ds ++ rest) ≡ (ds, rest)
unfolding span_digits
span_digits-append [] [] h e = refl
span_digits-append [] (c ∷ rest) h e = ground arith
span_digits-append (c ∷ ds) rest (hc, h) e = ground (arith, span_digits-append ds rest h e)

fraction_of_IsEnd : (s : Bytes) → IsEnd s → fraction s ≡ some ([], s)
unfolding fraction
fraction_of_IsEnd [] h = refl
fraction_of_IsEnd (c ∷ s) h = ground arith

exponent_of_IsEnd : (s : Bytes) → IsEnd s → exponent s ≡ some ([], s)
unfolding exponent
exponent_of_IsEnd [] h = refl
exponent_of_IsEnd (c ∷ []) h = ground arith
exponent_of_IsEnd (c ∷ d ∷ s) h = ground arith

integer-append : (n rest : Bytes) → IsNumeral n → IsEnd rest → integer (n ++ rest) ≡ some (n, rest)
unfolding integer
integer-append [] rest h e = absurd h
integer-append (c ∷ s) rest (inl (z, nothing)) e = ground arith
integer-append (c ∷ s) rest (inr (lo, hi, h)) e = ground (arith, span_digits-append s rest h e)

-- The scanner takes a numeral whole.
pub scan_number-append :
    (n rest : Bytes) → IsNumeral n → IsEnd rest → scan_number (n ++ rest) ≡ some (n, rest)
unfolding scan_number
scan_number-append [] rest h e = absurd h
scan_number-append (c ∷ s) rest h e =
    let unsigned_sign : (c == b'-') ≡ false = ground arith in
    rw (
      unsigned_sign,
      integer-append (c ∷ s) rest h e,
      fraction_of_IsEnd rest e,
      append-nil,
      exponent_of_IsEnd rest e,
      append-nil,
    )

emit-IsNumeral :
    (f n : ℕ) (out : Bytes)
    → n ≢ 0
    → n < 10 ^ suc f
    → All IsDigit out
    → IsNumeral (emit (suc f) n out)
unfolding emit
emit-IsNumeral zero n out pos small h =
    let lt : n < 10 = small in rw (lt→ltb n 10 lt) (ground arith)
emit-IsNumeral (suc f) n out pos small h = elim (Bool-cases (ltb n 10)) [
  | inl lt ↦ let below : n < 10 = ltb→lt n 10 lt in rw lt (ground arith)
  | inr ge ↦ rw ge (
      emit-IsNumeral f (n / 10) (digit n ∷ out) (ground arith) (omega (arith, pow-suc 10 (suc f)))
        (ground arith))
]

-- Every number of 64 bits is printed as a numeral.
pub format-IsNumeral : (n : ℕ) → n < 2 ^ 64 → IsNumeral (format n)
unfolding format
format-IsNumeral zero h = ground arith
format-IsNumeral (suc n) h = emit-IsNumeral 19 (suc n) [] (omega arith) (omega arith) tt
