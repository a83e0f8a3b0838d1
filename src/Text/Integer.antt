-- ===== src/Text/Integer.antt =====
-- Signed numbers of 64 bits: `%d` and `strconv.ParseInt(s, 10, 64)`.
use tessera_transparency.Base.{
  ℕ, suc, ◌^◌, ◌<◌, ◌≡◌, refl, [], ◌∷◌, Bytes, Result, ok, err, ltb, ◌==◌, if◌then◌else◌, arith,
  codes, ◌-◌, ◌≢◌, All,
}
use tessera_transparency.Text.Decimal
use tessera_transparency.Text.Decimal.{NumError, syntax, range, IsDigit}

-- `negsuc n` is -(n + 1).
pub data ℤ : Type 0 where
  pos : ℕ → ℤ
  negsuc : ℕ → ℤ

unfoldable pub format : ℤ → Bytes
format (pos n) = Decimal.format n
format (negsuc n) = b'-' ∷ Decimal.format (suc n)

-- A magnitude below the cutoff 2^63, or the cutoff itself with a minus sign.
abbrev positive : Result NumError ℕ → Result NumError ℤ
positive (err e) = err e
positive (ok n) = if ltb n (2 ^ 63) then ok (pos n) else err range

abbrev negative : Result NumError ℕ → Result NumError ℤ
negative (err e) = err e
negative (ok n) =
    if n == 0 then ok (pos 0) else if ltb (2 ^ 63) n then err range else ok (negsuc (n - 1))

unfoldable pub parse : Bytes → Result NumError ℤ
parse [] = err syntax
parse (c ∷ s) =
    if c == b'+'
    then positive (Decimal.parse s)
    else if c == b'-'
    then negative (Decimal.parse s)
    else positive (Decimal.parse (c ∷ s))

parse_of_digit : (s : Bytes) → s ≢ [] → All IsDigit s → parse s ≡ positive (Decimal.parse s)
unfolding parse
parse_of_digit [] filled h = absurd (filled refl)
parse_of_digit (c ∷ s) filled (hc, h) = ground arith

pub parse-format : (n : ℕ) → n < 2 ^ 63 → parse (format (pos n)) ≡ ok (pos n)
unfolding format
parse-format n h =
    rw
      (
        parse_of_digit (Decimal.format n) (Decimal.format-ne-nil n) (Decimal.format-IsDigit n),
        Decimal.parse-format n (omega arith),
      )
      (ground arith)

tests :
    (parse (codes "-9223372036854775808") ≡ ok (negsuc (2 ^ 63 - 1)))
    × (parse (codes "9223372036854775808") ≡ err range)
unfolding parse Decimal.parse
tests = (refl, refl)
