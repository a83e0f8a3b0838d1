-- ===== src/Text/Split.antt =====
-- `strings.Split` and `strings.SplitN` at a separator of one byte.
use tessera_transparency.Base.{
  ℕ, zero, suc, ◌≡◌, refl, List, [], ◌∷◌, ◌++◌, arith, Bytes, Lacks, ◌==◌, if◌then◌else◌, All,
}

abbrev pub push : ℕ → List Bytes → List Bytes
push c [] = (c ∷ []) ∷ []
push c (p ∷ ps) = (c ∷ p) ∷ ps

-- `strings.Split(s, sep)`
unfoldable pub split : ℕ → Bytes → List Bytes
split sep [] = [] ∷ []
split sep (c ∷ s) = let rest = split sep s in if c == sep then [] ∷ rest else push c rest

-- `strings.SplitN(s, sep, n)` for n ≥ 0
unfoldable pub split_n : ℕ → ℕ → Bytes → List Bytes
split_n sep zero s = []
split_n sep (suc zero) s = s ∷ []
split_n sep (suc (suc n)) [] = [] ∷ []
split_n sep (suc (suc n)) (c ∷ s) =
    let cut = split_n sep (suc n) s in
    let keep = split_n sep (suc (suc n)) s in if c == sep then [] ∷ cut else push c keep

-- A part without the separator, up to the separator, is the first part.
pub split-append :
    (sep : ℕ) (p s : Bytes) → Lacks sep p → split sep (p ++ sep ∷ s) ≡ p ∷ split sep s
unfolding split
split-append sep [] s h = ground arith
split-append sep (c ∷ p) s (hc, h) = ground (arith, split-append sep p s h)

pub split_of_Lacks : (sep : ℕ) (p : Bytes) → Lacks sep p → split sep p ≡ p ∷ []
unfolding split
split_of_Lacks sep [] h = refl
split_of_Lacks sep (c ∷ p) (hc, h) = ground (arith, split_of_Lacks sep p h)

pub split-All-Lacks : (sep : ℕ) (s : Bytes) → All (Lacks sep) (split sep s)
unfolding split
split-All-Lacks sep [] = (tt, tt)
split-All-Lacks sep (c ∷ s) = ground (arith, split-All-Lacks sep s)

-- So with a limit of two parts or more.
pub split_n-append :
    (sep n : ℕ) (p s : Bytes)
    → Lacks sep p
    → split_n sep (suc (suc n)) (p ++ sep ∷ s) ≡ p ∷ split_n sep (suc n) s
unfolding split_n
split_n-append sep n [] s h = ground arith
split_n-append sep n (c ∷ p) s (hc, h) = ground (arith, split_n-append sep n p s h)
