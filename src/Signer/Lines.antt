-- ===== src/Signer/Lines.antt =====
-- `splitLines` of internal/signer/signer.go, with the lines that hold more than spaces.
use mathlib.Core.List.{reverse}
use tessera_transparency.Base.{
  ℕ, ◌≡◌, refl, ◌≢◌, Bool, true, false, List, [], ◌∷◌, ◌++◌, Bytes, if◌then◌else◌, Lacks, bytes_eq,
}
use tessera_transparency.Text.Split.{split, split-append, split_of_Lacks}
use tessera_transparency.Text.Trim.{trim_space, HeadClean, trim_space_of_HeadClean}

abbrev pub newline : ℕ
newline = b'\n'

is_blank : Bytes → Bool
is_blank l = bytes_eq (trim_space l) []

keep : List Bytes → List Bytes
unfolding is_blank
keep [] = []
keep (l ∷ ls) = let rest = keep ls in if is_blank l then rest else l ∷ rest

unfoldable pub split_lines : Bytes → List Bytes
unfolding keep
split_lines s = keep (split newline s)

-- A line that begins and ends with a printable byte.
pub record IsLine (l : Bytes) : Type 0 where
  pub present : l ≢ []
  pub front : HeadClean l
  pub back : HeadClean (reverse l)
  pub one_line : Lacks newline l

bytes_eq-nil : (l : Bytes) → l ≢ [] → bytes_eq l [] ≡ false
bytes_eq-nil [] present = absurd (present refl)
bytes_eq-nil (c ∷ l) present = refl

IsLine-is_blank : (l : Bytes) → IsLine l → is_blank l ≡ false
unfolding is_blank
IsLine-is_blank l h = rw (trim_space_of_HeadClean l h.front h.back) (bytes_eq-nil l h.present)

empty-is_blank : is_blank [] ≡ true
unfolding is_blank trim_space
empty-is_blank = refl

-- What is written as two lines is read as two lines.
pub split_lines_pair :
    (l m : Bytes)
    → IsLine l
    → IsLine m
    → split_lines (l ++ newline ∷ (m ++ newline ∷ [])) ≡ l ∷ m ∷ []
unfolding split_lines
split_lines_pair l m hl hm = rw (
  split-append newline l (m ++ newline ∷ []) hl.one_line,
  split-append newline m [] hm.one_line,
  split_of_Lacks newline [] tt,
  keep,
  IsLine-is_blank l hl,
  keep,
  IsLine-is_blank m hm,
  keep,
  empty-is_blank,
)
