-- ===== src/Json/Parse/Printable.antt =====
-- The values that survive printing, and the text of a value, which no space begins.
use tessera_transparency.Base.{◌≡◌, refl, true, false, [], ◌∷◌, ◌++◌, arith, Bytes}
use tessera_transparency.Json.Utf8.{IsUtf8}
use tessera_transparency.Json.Number.{IsNumeral}
use tessera_transparency.Json.Value.{
  Value, Items, Members, null, boolean, number, string, array, object, nil, item, end, member,
  print,
}
use tessera_transparency.Json.Parse.{is_space, skip_spaces}

-- Values that survive printing: strings are UTF-8, numbers are numerals.
unfoldable mutual
  pub IsPrintable : Value → Type 0
  IsPrintable null = Unit
  IsPrintable (boolean b) = Unit
  IsPrintable (number n) = IsNumeral n
  IsPrintable (string s) = IsUtf8 s
  IsPrintable (array vs) = ArePrintable vs
  IsPrintable (object ms) = HavePrintable ms

  pub ArePrintable : Items → Type 0
  ArePrintable nil = Unit
  ArePrintable (item v vs) = IsPrintable v × ArePrintable vs

  pub HavePrintable : Members → Type 0
  HavePrintable end = Unit
  HavePrintable (member k v ms) = IsUtf8 k × (IsPrintable v × HavePrintable ms)

-- The text begins with no space.
abbrev pub IsTight : Bytes → Type 0
IsTight [] = ⊥
IsTight (c ∷ s) = is_space c ≡ false

pub skip_spaces_of_IsTight : (s t : Bytes) → IsTight s → skip_spaces (s ++ t) ≡ s ++ t
unfolding skip_spaces
skip_spaces_of_IsTight [] t h = absurd h
skip_spaces_of_IsTight (c ∷ s) t h = rw h

pub print-IsTight : (v : Value) → IsPrintable v → IsTight (print v)
unfolding print IsPrintable
print-IsTight null h = refl
print-IsTight (boolean true) h = refl
print-IsTight (boolean false) h = refl
print-IsTight (number []) h = absurd h
print-IsTight (number (c ∷ s)) h = ground arith
print-IsTight (string s) h = refl
print-IsTight (array vs) h = refl
print-IsTight (object ms) h = refl

pub skip_spaces-print :
    (v : Value) (t : Bytes) → IsPrintable v → skip_spaces (print v ++ t) ≡ print v ++ t
skip_spaces-print v t h = skip_spaces_of_IsTight (print v) t (print-IsTight v h)
