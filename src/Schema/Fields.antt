-- ===== src/Schema/Fields.antt =====
-- How `encoding/json` writes and reads the field types of the tokens.
pub mod Laws
use mathlib.Core.Option
use mathlib.Core.List.{foldl}
use tessera_transparency.Base.{
  ℕ, zero, suc, ◌+◌, ◌-◌, ◌≤◌, ◌<◌, ◌≡◌, refl, ◌&&◌, Bool, true, false, List, [], ◌∷◌, ◌++◌, Option,
  none, some, Bytes, Result, ok, err, codes, length, ltb, leb, ◌==◌, if◌then◌else◌, bytes_eq,
}
use tessera_transparency.Text.Base64
use tessera_transparency.Text.Decimal
use tessera_transparency.Json.Value.{
  Value, Items, Members, null, boolean, number, string, array, object, nil, item, end, member,
}

-- `json.Unmarshal` fails on a text that is no JSON, or on a value that does not fit its field.
pub data JsonError : Type 0 where
  syntax mismatch : JsonError

-- `nil` or bytes.
abbrev pub Blob : Type 0
Blob = Option Bytes

-- The bytes of a slice; nil has none.
abbrev pub bytes_of : Blob → Bytes
bytes_of none = []
bytes_of (some b) = b

-- A []byte field: null, or a string of base64.
abbrev pub blob_value : Blob → Value
blob_value none = null
blob_value (some b) = string (Base64.encode b)

abbrev pub uint_value : ℕ → Value
uint_value n = number (Decimal.format n)

-- A field with `omitempty`: no member where the slice is nil or empty.
abbrev pub omit_empty : Bytes → Blob → Members
omit_empty name none = end
omit_empty name (some []) = end
omit_empty name (some (c ∷ b)) = member name (blob_value (some (c ∷ b))) end

-- A reader takes the value of the key and the field's old value. `null` leaves a field that is no
-- slice as it is.
unfoldable pub read_string : Value → Bytes → Option Bytes
read_string (string s) old = some s
read_string null old = some old
read_string _ old = none

unfoldable pub read_bool : Value → Bool → Option Bool
read_bool (boolean b) old = some b
read_bool null old = some old
read_bool _ old = none

to_option : Result Decimal.NumError ℕ → Option ℕ
to_option (ok n) = some n
to_option (err e) = none

unfoldable pub read_uint : Value → ℕ → Option ℕ
unfolding to_option
read_uint (number n) old = to_option (Decimal.parse n)
read_uint null old = some old
read_uint _ old = none

head_or_zero : Bytes → ℕ
head_or_zero [] = 0
head_or_zero (c ∷ s) = c

tail : Bytes → Bytes
tail [] = []
tail (c ∷ s) = s

as_byte : ℕ → Option ℕ
as_byte n = if ltb n 256 then some n else none

-- An array of small numbers is taken for a []byte too; `null` keeps the old element.
read_items : Items → Bytes → Option Bytes
unfolding to_option head_or_zero tail as_byte
read_items nil old = some []
read_items (item (number n) vs) old =
    Option.bind (Option.bind (to_option (Decimal.parse n)) as_byte)
      λ b. Option.map (λ bs. b ∷ bs) (read_items vs (tail old))
read_items (item null vs) old = Option.map (λ bs. head_or_zero old ∷ bs) (read_items vs (tail old))
read_items (item _ vs) old = none

unfoldable pub read_blob : Value → Blob → Option Blob
unfolding read_items
read_blob null old = some none
read_blob (string s) old = Option.map (λ b. some b) (Base64.decode s)
read_blob (array vs) old = Option.map (λ b. some b) (read_items vs (bytes_of old))
read_blob _ old = none

upper : ℕ → ℕ
upper c = if leb b'a' c && leb c b'z' then c - 32 else c

-- `foldName`: ASCII letters in upper case, the long s as S and the Kelvin sign as K.
pub fold_name : Bytes → Bytes
unfolding upper
fold_name [] = []
fold_name (c ∷ []) = upper c ∷ []
fold_name (c ∷ d ∷ []) = if c == 0xC5 && d == 0xBF then b'S' ∷ [] else upper c ∷ upper d ∷ []
fold_name (c ∷ d ∷ e ∷ s) =
    let narrow = upper c ∷ fold_name (d ∷ e ∷ s) in
    let long_s = b'S' ∷ fold_name (e ∷ s) in
    let kelvin = b'K' ∷ fold_name s in
    if c == 0xC5 && d == 0xBF
    then long_s
    else if c == 0xE2 && d == 0x84 && e == 0xAA
    then kelvin
    else narrow

-- Keys are matched without regard to case.
unfoldable pub names : Bytes → Bytes → Bool
unfolding fold_name
names key name = bytes_eq (fold_name key) (fold_name name)

-- The members of an object, in their order, each into its field; a failure anywhere is reported at
-- the end, and the decoders of the tokens then drop the value.
unfoldable pub read_members {ℓ} :
    {T : Type ℓ} → (Bytes → Value → T → Option T) → Members → T → Option T
read_members set end t = some t
read_members set (member k v ms) t = Option.bind (set k v t) (read_members set ms)

-- A struct is read from an object; `null` leaves it as it is.
unfoldable pub read_struct {ℓ} :
    {T : Type ℓ} → (Bytes → Value → T → Option T) → T → Option Value → Result JsonError T
unfolding read_members
read_struct set t none = err syntax
read_struct set t (some (object ms)) = elim (read_members set ms t) [
  | none ↦ err mismatch
  | some u ↦ ok u
]
read_struct set t (some null) = ok t
read_struct set t (some _) = err mismatch
