-- ===== src/Text/Trim.antt =====
-- `strings.TrimSpace` over UTF-8: a space is one of Unicode's, as its bytes.
use mathlib.Core.List.{reverse, reverse-reverse}
use mathlib.Core.Logic.{◌≢◌}
use tessera_transparency.Base.{
  ℕ, zero, suc, ◌<◌, ◌≤◌, ◌⊎◌, ◌≡◌, refl, Bool, true, false, ◌&&◌, List, [], ◌∷◌, ◌++◌, map, arith,
  Bytes, length, ◌==◌, if◌then◌else◌, All, All-reverse_aux,
}

abbrev spaces : List Bytes
spaces =
    (9 ∷ [])
    ∷ (10 ∷ [])
    ∷ (11 ∷ [])
    ∷ (12 ∷ [])
    ∷ (13 ∷ [])
    ∷ (32 ∷ [])
    ∷ (0xC2 ∷ 0x85 ∷ [])
    ∷ (0xC2 ∷ 0xA0 ∷ [])
    ∷ (0xE1 ∷ 0x9A ∷ 0x80 ∷ [])
    ∷ (0xE2 ∷ 0x80 ∷ 0x80 ∷ [])
    ∷ (0xE2 ∷ 0x80 ∷ 0x81 ∷ [])
    ∷ (0xE2 ∷ 0x80 ∷ 0x82 ∷ [])
    ∷ (0xE2 ∷ 0x80 ∷ 0x83 ∷ [])
    ∷ (0xE2 ∷ 0x80 ∷ 0x84 ∷ [])
    ∷ (0xE2 ∷ 0x80 ∷ 0x85 ∷ [])
    ∷ (0xE2 ∷ 0x80 ∷ 0x86 ∷ [])
    ∷ (0xE2 ∷ 0x80 ∷ 0x87 ∷ [])
    ∷ (0xE2 ∷ 0x80 ∷ 0x88 ∷ [])
    ∷ (0xE2 ∷ 0x80 ∷ 0x89 ∷ [])
    ∷ (0xE2 ∷ 0x80 ∷ 0x8A ∷ [])
    ∷ (0xE2 ∷ 0x80 ∷ 0xA8 ∷ [])
    ∷ (0xE2 ∷ 0x80 ∷ 0xA9 ∷ [])
    ∷ (0xE2 ∷ 0x80 ∷ 0xAF ∷ [])
    ∷ (0xE2 ∷ 0x81 ∷ 0x9F ∷ [])
    ∷ (0xE3 ∷ 0x80 ∷ 0x80 ∷ [])
    ∷ []

is_prefix : Bytes → Bytes → Bool
is_prefix [] s = true
is_prefix (p ∷ ps) [] = false
is_prefix (p ∷ ps) (c ∷ s) = p == c && is_prefix ps s

-- The size of the space that the text begins with, 0 if it begins with none.
space_size : List Bytes → Bytes → ℕ
unfolding is_prefix
space_size [] s = 0
space_size (p ∷ ps) s = let rest = space_size ps s in if is_prefix p s then length p else rest

-- Drop `k` bytes, then spaces as long as there are any.
trim_from : List Bytes → ℕ → Bytes → Bytes
unfolding space_size
trim_from table k [] = []
trim_from table (suc k) (c ∷ s) = trim_from table k s
trim_from table zero (c ∷ s) = elim (space_size table (c ∷ s)) [
  | zero ↦ c ∷ s
  | suc k ↦ trim_from table k s
]

unfoldable pub trim_space : Bytes → Bytes
unfolding trim_from
trim_space s = reverse (trim_from (map reverse spaces) 0 (reverse (trim_from spaces 0 s)))

abbrev pub IsCleanByte : ℕ → Type 0
IsCleanByte c = (32 < c) × (c < 127)

-- The text is empty or begins with a printable ASCII byte.
abbrev pub HeadClean : Bytes → Type 0
HeadClean [] = Unit
HeadClean (c ∷ s) = IsCleanByte c

-- A pattern that no printable byte begins.
abbrev IsForeign : Bytes → Type 0
IsForeign [] = ⊥
IsForeign (d ∷ _) = (d ≤ 32) ⊎ (127 ≤ d)

space_size-eq-zero :
    (table : List Bytes) (c : ℕ) (s : Bytes)
    → All IsForeign table
    → IsCleanByte c
    → space_size table (c ∷ s) ≡ 0
unfolding space_size
space_size-eq-zero [] c s h clean = refl
space_size-eq-zero ([] ∷ table) c s (foreign, h) clean = absurd foreign
space_size-eq-zero ((d ∷ p) ∷ table) c s (foreign, h) clean =
    ground (arith, space_size-eq-zero table c s h clean)

trim_from_of_HeadClean :
    (table : List Bytes) (s : Bytes) → All IsForeign table → HeadClean s → trim_from table 0 s ≡ s
unfolding trim_from
trim_from_of_HeadClean table [] foreign h = refl
trim_from_of_HeadClean table (c ∷ s) foreign h =
    rw (space_size-eq-zero table c s foreign h, trim_from)

spaces-IsForeign : All IsForeign spaces
spaces-IsForeign = omega arith

reversed-IsForeign : All IsForeign (map reverse spaces)
reversed-IsForeign = omega arith

-- A text with a printable byte at both ends is left as it is.
pub trim_space_of_HeadClean : (s : Bytes) → HeadClean s → HeadClean (reverse s) → trim_space s ≡ s
unfolding trim_space
trim_space_of_HeadClean s front back =
    rw
      (
        trim_from_of_HeadClean spaces s spaces-IsForeign front,
        trim_from_of_HeadClean (map reverse spaces) (reverse s) reversed-IsForeign back,
      )
      (reverse-reverse s)

All-HeadClean : (s : Bytes) → All IsCleanByte s → HeadClean s
All-HeadClean [] h = tt
All-HeadClean (c ∷ s) (h, _) = h

pub HeadClean-append : (s t : Bytes) → s ≢ [] → HeadClean s → HeadClean (s ++ t)
HeadClean-append [] t filled h = absurd (filled refl)
HeadClean-append (c ∷ s) t filled h = h

pub HeadClean-reverse : (s : Bytes) → All IsCleanByte s → HeadClean (reverse s)
HeadClean-reverse s h = All-HeadClean (reverse s) (All-reverse_aux IsCleanByte s [] h tt)

pub trim_space_of_All : (s : Bytes) → All IsCleanByte s → trim_space s ≡ s
trim_space_of_All s h = trim_space_of_HeadClean s (All-HeadClean s h) (HeadClean-reverse s h)

tests :
    trim_space (32 ∷ 0xE2 ∷ 0x80 ∷ 0x83 ∷ 65 ∷ 32 ∷ 66 ∷ 0xC2 ∷ 0xA0 ∷ 10 ∷ []) ≡ 65 ∷ 32 ∷ 66 ∷ []
unfolding trim_space
tests = refl
