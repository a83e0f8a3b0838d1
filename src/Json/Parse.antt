-- ===== src/Json/Parse.antt =====
-- The parser of `json.Unmarshal`, which accepts exactly the texts that its scanner does and keeps
-- the values. (The real one refuses values nested deeper than 10,000 levels.)
pub mod Printable
pub mod Steps
pub mod Fuel
pub mod RoundTrip
use tessera_transparency.Base.Options.{◌>>=◌}
use tessera_transparency.Base.{
  ℕ, zero, suc, ◌+◌, ◌*◌, ◌≡◌, refl, ◌||◌, Bool, true, false, [], ◌∷◌, Option, none, some, Bytes,
  codes, length, ◌==◌, if◌then◌else◌,
}
use mathlib.Core.Option
use tessera_transparency.Json.Quote.{raw_string, unquote, quote_mark}
use tessera_transparency.Json.Number.{scan_number}
use tessera_transparency.Json.Value.{
  Value, Items, Members, null, boolean, number, string, array, object, nil, item, end, member,
}

abbrev pub is_space : ℕ → Bool
is_space c = c == 32 || c == 9 || c == 10 || c == 13

pub skip_spaces : Bytes → Bytes
skip_spaces [] = []
skip_spaces (c ∷ s) = let rest = skip_spaces s in if is_space c then rest else c ∷ s

-- The rest behind a word.
pub strip_prefix : Bytes → Bytes → Option Bytes
strip_prefix [] s = some s
strip_prefix (p ∷ ps) [] = none
strip_prefix (p ∷ ps) (c ∷ s) = let rest = strip_prefix ps s in if p == c then rest else none

pub word : Value → Bytes → Bytes → Option (Value × Bytes)
unfolding strip_prefix
word v w s = Option.map (λ rest. (v, rest)) (strip_prefix w s)

-- Behind the opening quotation mark.
pub text : Bytes → Option (Bytes × Bytes)
text s = do (raw, rest) ← raw_string false s; t ← unquote raw; some (t, rest)

-- Behind an opening bracket: the closing one, or what `inner` reads.
pub open_array : (Bytes → Option (Items × Bytes)) → Bytes → Option (Value × Bytes)
open_array inner [] = none
open_array inner (c ∷ s) =
    if c == b']'
    then some (array nil, s)
    else Option.map (λ (vs, rest). (array vs, rest)) (inner (c ∷ s))

pub open_object : (Bytes → Option (Members × Bytes)) → Bytes → Option (Value × Bytes)
open_object inner [] = none
open_object inner (c ∷ s) =
    if c == b'}'
    then some (object end, s)
    else Option.map (λ (ms, rest). (object ms, rest)) (inner (c ∷ s))

pub start :
    (Bytes → Option (Items × Bytes))
    → (Bytes → Option (Members × Bytes))
    → Bytes
    → Option (Value × Bytes)
unfolding word text open_array open_object skip_spaces
start its ms [] = none
start its ms (c ∷ s) =
    if c == quote_mark
    then Option.map (λ (t, rest). (string t, rest)) (text s)
    else if c == b'['
    then open_array its (skip_spaces s)
    else if c == b'{'
    then open_object ms (skip_spaces s)
    else if c == b't'
    then word (boolean true) (codes "rue") s
    else if c == b'f'
    then word (boolean false) (codes "alse") s
    else if c == b'n'
    then word null (codes "ull") s
    else Option.map (λ (n, rest). (number n, rest)) (scan_number (c ∷ s))

-- Behind an element: the end of the array, or a comma and the others.
pub next_item : (Bytes → Option (Items × Bytes)) → Value → Bytes → Option (Items × Bytes)
next_item others v [] = none
next_item others v (c ∷ s) =
    if c == b']'
    then some (item v nil, s)
    else if c == b','
    then Option.map (λ (vs, rest). (item v vs, rest)) (others s)
    else none

pub next_member :
    (Bytes → Option (Members × Bytes)) → Bytes → Value → Bytes → Option (Members × Bytes)
next_member others k v [] = none
next_member others k v (c ∷ s) =
    if c == b'}'
    then some (member k v end, s)
    else if c == b','
    then Option.map (λ (ms, rest). (member k v ms, rest)) (others s)
    else none

-- A key and its colon.
pub key : Bytes → Option (Bytes × Bytes)
unfolding text
key [] = none
key (c ∷ s) = if c == quote_mark then text s else none

pub colon : Bytes → Option Bytes
colon [] = none
colon (c ∷ s) = if c == b':' then some s else none

unfoldable mutual
  pub read_value : ℕ → Bytes → Option (Value × Bytes)
  read_value zero s = none
  read_value (suc f) s = start (read_items f) (read_members f) (skip_spaces s)

  pub read_items : ℕ → Bytes → Option (Items × Bytes)
  read_items zero s = none
  read_items (suc f) s =
      read_value f s >>= λ (v, rest). next_item (read_items f) v (skip_spaces rest)

  pub read_members : ℕ → Bytes → Option (Members × Bytes)
  read_members zero s = none
  read_members (suc f) s = key (skip_spaces s) >>= λ (k, behind).
      colon (skip_spaces behind) >>= λ from.
      read_value f from >>= λ (v, rest). next_member (read_members f) k v (skip_spaces rest)

-- A value that nothing but spaces follows.
finish : Option (Value × Bytes) → Option Value
unfolding skip_spaces
finish none = none
finish (some (v, rest)) = elim (skip_spaces rest) [ [] ↦ some v | _ ↦ none ]

-- Each level takes a byte and at most two units of fuel.
unfoldable pub parse : Bytes → Option Value
unfolding read_value finish start next_item next_member key colon
parse s = finish (read_value (2 * length s + 2) s)

first_value : Option (Value × Bytes) → Option Value
first_value = Option.map (λ (v, rest). v)

-- `json.NewDecoder(r).Decode`: the first value of a stream.
unfoldable pub parse_first : Bytes → Option Value
unfolding read_value first_value start next_item next_member key colon
parse_first s = first_value (read_value (2 * length s + 2) s)

tests :
    (parse (codes " {\"a\" : [1, -2.5e3 ,true],\"b\":null} ")
      ≡ some (
          object (
            member
              (codes "a")
              (array (
                item
                  (number (codes "1"))
                  (item (number (codes "-2.5e3")) (item (boolean true) nil))))
              (member (codes "b") null end))))
    × (parse (codes "{\"a\":1,}") ≡ none)
    × (parse (codes "01") ≡ none)
unfolding parse scan_number raw_string unquote
tests = (refl, refl, refl)
