-- ===== src/Bench/Reports/Laws.antt =====
-- A CSV file of plain fields can be read back.
use tessera_transparency.Base.{
  ℕ, suc, ◌≤◌, ◌≡◌, refl, ◌≢◌, ap, sym, ◌∙◌, List, [], ◌∷◌, ◌++◌, append_assoc, Bytes, ok, err,
  codes, false, ◌==◌, arith, All, Lacks, All-append, Option, none, some, Bool-cases, inl, inr,
}
use mathlib.Core.List.{cons-ne-nil}
use tessera_transparency.Base.Options.{◌>>=◌}
use tessera_transparency.Text.Split.{split, split-append, split_of_Lacks}
use tessera_transparency.Text.Decimal
use tessera_transparency.Text.Decimal.{max_u64, IsDigit}
use tessera_transparency.Bench.Correctness.{CorrResult}
use tessera_transparency.Bench.Reports.{has_special, csv_field, csv_row, csv_text, correctness_rows}

-- Letters, digits, underscores and points.
abbrev IsPlainByte : ℕ → Type 0
IsPlainByte c = (b'-' ≤ c) × (c ≤ b'z') × (c ≢ b'\\')

-- A field that is written as it is.
abbrev pub IsPlain : Bytes → Type 0
IsPlain = All IsPlainByte

has_special_plain : (s : Bytes) → IsPlain s → has_special s ≡ false
has_special_plain [] h = refl
has_special_plain (c ∷ s) (hc, h) = ground (arith, has_special_plain s h)

csv_field_plain : (s : Bytes) → IsPlain s → csv_field s ≡ s
unfolding csv_field
csv_field_plain [] h = refl
csv_field_plain (c ∷ s) (hc, h) = ground (arith, has_special_plain s h)

-- A row of fields that are written as they are.
abbrev pub IsPlainRow : List Bytes → Type 0
IsPlainRow fs = (fs ≢ []) × All IsPlain fs

IsPlain-Lacks : (b : ℕ) (s : Bytes) → suc b ≤ b'-' → IsPlain s → Lacks b s
IsPlain-Lacks b [] small h = tt
IsPlain-Lacks b (c ∷ s) small (hc, h) = (λ e. absurd (omega arith), IsPlain-Lacks b s small h)

-- The text of a row, without its end.
join : List Bytes → Bytes
join [] = []
join (f ∷ []) = f
join (f ∷ g ∷ fs) = f ++ b',' ∷ join (g ∷ fs)

csv_row-join : (fs : List Bytes) → All IsPlain fs → csv_row fs ≡ join fs ++ b'\n' ∷ []
unfolding csv_row join
csv_row-join [] h = refl
csv_row-join (f ∷ []) (hf, h) = ap (λ t. t ++ b'\n' ∷ []) (csv_field_plain f hf)
csv_row-join (f ∷ g ∷ fs) (hf, h) =
    ap (λ t. t ++ b',' ∷ csv_row (g ∷ fs)) (csv_field_plain f hf)
    ∙ ap (λ t. f ++ b',' ∷ t) (csv_row-join (g ∷ fs) h)
    ∙ sym (append_assoc f (b',' ∷ join (g ∷ fs)) (b'\n' ∷ []))

Lacks-join : (fs : List Bytes) → All IsPlain fs → Lacks b'\n' (join fs)
unfolding join
Lacks-join [] h = tt
Lacks-join (f ∷ []) (hf, h) = IsPlain-Lacks b'\n' f (omega arith) hf
Lacks-join (f ∷ g ∷ fs) (hf, h) =
    All-append (λ c. c ≢ b'\n') f (b',' ∷ join (g ∷ fs)) (IsPlain-Lacks b'\n' f (omega arith) hf)
      (omega arith, Lacks-join (g ∷ fs) h)

split-join : (fs : List Bytes) → IsPlainRow fs → split b',' (join fs) ≡ fs
unfolding join
split-join [] (filled, h) = absurd (filled refl)
split-join (f ∷ []) (filled, (hf, h)) =
    split_of_Lacks b',' f (IsPlain-Lacks b',' f (omega arith) hf)
split-join (f ∷ g ∷ fs) (filled, (hf, h)) =
    split-append b',' f (join (g ∷ fs)) (IsPlain-Lacks b',' f (omega arith) hf)
    ∙ ap (λ r. f ∷ r) (split-join (g ∷ fs) ((λ e. cons-ne-nil g fs e), h))

-- A reader that knows nothing of quotes: a row for each line that is ended, split at its commas.
unfoldable pub ended_lines : List Bytes → List (List Bytes)
ended_lines [] = []
ended_lines (l ∷ []) = []
ended_lines (l ∷ k ∷ ls) = split b',' l ∷ ended_lines (k ∷ ls)

unfoldable pub read_csv : Bytes → List (List Bytes)
unfolding ended_lines
read_csv text = ended_lines (split b'\n' text)

split_cons : (sep : ℕ) (s : Bytes) → (p : Bytes) × (ps : List Bytes) × (split sep s ≡ p ∷ ps)
unfolding split
split_cons sep [] = ([], [], refl)
split_cons sep (c ∷ s) =
    let (p, ps, e) = split_cons sep s in
    elim (Bool-cases (c == sep)) [
      | inl cut ↦ ([], split sep s, rw cut)
      | inr kept ↦ (c ∷ p, ps, rw kept (rw e))
    ]

ended_lines_cons :
    (l text : Bytes)
    → ended_lines (l ∷ split b'\n' text) ≡ split b',' l ∷ ended_lines (split b'\n' text)
unfolding ended_lines
ended_lines_cons l text = let (p, ps, e) = split_cons b'\n' text in rw e

-- A file whose fields are plain is read back as its rows.
pub read_csv-csv_text :
    (rows : List (List Bytes)) → All IsPlainRow rows → read_csv (csv_text rows) ≡ rows
unfolding csv_text read_csv
read_csv-csv_text [] h = unfold split ended_lines in refl
read_csv-csv_text (r ∷ rows) (hr, h) =
    ap (λ t. ended_lines (split b'\n' (t ++ csv_text rows))) (csv_row-join r hr.1)
    ∙ ap (λ t. ended_lines (split b'\n' t)) (append_assoc (join r) (b'\n' ∷ []) (csv_text rows))
    ∙ ap ended_lines (split-append b'\n' (join r) (csv_text rows) (Lacks-join r hr.1))
    ∙ ended_lines_cons (join r) (csv_text rows)
    ∙ ap (λ x. x ∷ ended_lines (split b'\n' (csv_text rows))) (split-join r hr)
    ∙ ap (λ rs. r ∷ rs) (read_csv-csv_text rows h)

-- The numbers of the file, by their places.
number_of : Bytes → Option ℕ
number_of s = elim (Decimal.parse s) [ ok n ↦ some n | err e ↦ none ]

unfoldable pub read_counts : List (List Bytes) → Option CorrResult
unfolding number_of
read_counts (header ∷ (x ∷ a ∷ b ∷ c ∷ []) ∷ (y ∷ d ∷ e ∷ f ∷ []) ∷ (z ∷ g ∷ h ∷ i ∷ []) ∷ []) = do
  inclusion_total ← number_of a
  inclusion_passed ← number_of b
  inclusion_failed ← number_of c
  consistency_total ← number_of d
  consistency_passed ← number_of e
  consistency_failed ← number_of f
  negative_total ← number_of g
  negative_passed ← number_of h
  negative_failed ← number_of i
  some (record {
    inclusion_total = inclusion_total;
    inclusion_passed = inclusion_passed;
    inclusion_failed = inclusion_failed;
    consistency_total = consistency_total;
    consistency_passed = consistency_passed;
    consistency_failed = consistency_failed;
    negative_total = negative_total;
    negative_passed = negative_passed;
    negative_failed = negative_failed;
  })
read_counts _ = none

number_of-format : (n : ℕ) → n ≤ max_u64 → number_of (Decimal.format n) ≡ some n
unfolding number_of
number_of-format n h = rw (Decimal.parse-format n h, number_of)

IsDigit-IsPlain : (s : Bytes) → All IsDigit s → IsPlain s
IsDigit-IsPlain [] h = tt
IsDigit-IsPlain (c ∷ s) (hc, h) = (omega arith, IsDigit-IsPlain s h)

format-IsPlain : (n : ℕ) → IsPlain (Decimal.format n)
format-IsPlain n = IsDigit-IsPlain (Decimal.format n) (Decimal.format-IsDigit n)

-- Counters that fit 64 bits.
pub record Fit (r : CorrResult) : Type 0 where
  pub inclusion :
      (r.inclusion_total ≤ max_u64)
      × (r.inclusion_passed ≤ max_u64)
      × (r.inclusion_failed ≤ max_u64)
  pub consistency :
      (r.consistency_total ≤ max_u64)
      × (r.consistency_passed ≤ max_u64)
      × (r.consistency_failed ≤ max_u64)
  pub negative :
      (r.negative_total ≤ max_u64) × (r.negative_passed ≤ max_u64) × (r.negative_failed ≤ max_u64)

count_row-IsPlainRow :
    (name : Bytes) (a b c : ℕ)
    → IsPlain name
    → IsPlainRow (name ∷ Decimal.format a ∷ Decimal.format b ∷ Decimal.format c ∷ [])
count_row-IsPlainRow name a b c h =
    (λ e. cons-ne-nil name _ e, (h, (format-IsPlain a, (format-IsPlain b, (format-IsPlain c, tt)))))

correctness_rows-IsPlainRow : (r : CorrResult) → All IsPlainRow (correctness_rows r)
unfolding correctness_rows
correctness_rows-IsPlainRow r = (
  (λ e. cons-ne-nil (codes "test") _ e, omega arith),
  (
    count_row-IsPlainRow (codes "inclusion_proofs") _ _ _ (omega arith),
    (
      count_row-IsPlainRow (codes "consistency_proofs") _ _ _ (omega arith),
      (count_row-IsPlainRow (codes "negative_tampered") _ _ _ (omega arith), tt),
    ),
  ),
)

-- The file correctness.csv holds the whole result: it is read back from the text of the file, by
-- lines, commas and decimal numbers. The counters fit 64 bits.
pub read_counts-correctness_rows :
    (r : CorrResult) → Fit r → read_counts (read_csv (csv_text (correctness_rows r))) ≡ some r
read_counts-correctness_rows r fit =
    ap read_counts (read_csv-csv_text (correctness_rows r) (correctness_rows-IsPlainRow r))
    ∙ (unfold read_counts correctness_rows in
        rw (
          number_of-format r.inclusion_total fit.inclusion.0,
          number_of-format r.inclusion_passed fit.inclusion.1,
          number_of-format r.inclusion_failed fit.inclusion.2,
          number_of-format r.consistency_total fit.consistency.0,
          number_of-format r.consistency_passed fit.consistency.1,
          number_of-format r.consistency_failed fit.consistency.2,
          number_of-format r.negative_total fit.negative.0,
          number_of-format r.negative_passed fit.negative.1,
          number_of-format r.negative_failed fit.negative.2,
        ))
