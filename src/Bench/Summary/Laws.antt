-- ===== src/Bench/Summary/Laws.antt =====
-- What the summary says.
use tessera_transparency.Base.{
  ℕ, suc, ◌+◌, ◌-◌, ◌/◌, ◌<◌, ◌≡◌, refl, ◌↔◌, List, [], ◌∷◌, Bytes, codes, length, leb, ◌==◌,
  if◌then◌else◌, arith, Lacks, Bool-cases, inl, inr,
}
use tessera_transparency.Log.{Log, Merkle, Checkpoint}
use tessera_transparency.Bench.Correctness.{
  EntryRecord, corr_total, corr_snapshots, corr_neg_tests, check_all, exit_code,
}
use tessera_transparency.Bench.Correctness.Laws.{
  check_all-counts, check_all-totals, exit_code_sound, exit_code_complete,
}
use tessera_transparency.Bench.Summary.{pass_or_fail, comma, insert_commas, commaf}

-- The text without its commas.
unfoldable pub digits_of : Bytes → Bytes
digits_of [] = []
digits_of (c ∷ s) = let rest = digits_of s in if c == comma then rest else c ∷ rest

digits_of-insert_commas :
    (n i : ℕ) (s : Bytes) → Lacks comma s → digits_of (insert_commas n i s) ≡ s
unfolding digits_of insert_commas
digits_of-insert_commas n i [] h = refl
digits_of-insert_commas n i (c ∷ s) (hc, h) = ground (arith, digits_of-insert_commas n (suc i) s h)

digits_of-Lacks : (s : Bytes) → Lacks comma s → digits_of s ≡ s
unfolding digits_of
digits_of-Lacks [] h = refl
digits_of-Lacks (c ∷ s) (hc, h) = ground (arith, digits_of-Lacks s h)

length-insert_commas :
    (n i : ℕ) (s : Bytes)
    → i + length s ≡ n
    → 0 < i
    → length (insert_commas n i s) ≡ length s + length s / 3
unfolding insert_commas
length-insert_commas n i [] e h = omega arith
length-insert_commas n i (c ∷ s) e h =
    ground (arith, length-insert_commas n (suc i) s (omega arith) (omega arith))

-- The commas are all that `commaf` adds to the digits, and there is one for every three digits
-- behind the first.
pub commaf_lem :
    (s : Bytes)
    → Lacks comma s
    → (digits_of (commaf s) ≡ s) × (length (commaf s) ≡ length s + (length s - 1) / 3)
unfolding commaf insert_commas digits_of
commaf_lem [] h = (refl, refl)
commaf_lem (c ∷ s) (hc, h) = elim (Bool-cases (leb (length (c ∷ s)) 3)) [
  | inl short ↦ rw short (digits_of-Lacks (c ∷ s) (hc, h), ground arith)
  | inr long ↦ rw long (
    digits_of-insert_commas (length (c ∷ s)) 0 (c ∷ s) (hc, h),
    omega (arith, length-insert_commas (length (c ∷ s)) 1 s (omega arith) (omega arith)),
  )
]

pass_or_fail_iff :
    (passed total : ℕ) → 0 < total → (pass_or_fail passed total ≡ codes "PASS") ↔ (passed ≡ total)
unfolding pass_or_fail
pass_or_fail_iff passed total h = (λ e. ground arith, λ e. ground arith)

module _ (log : Log) (m : Merkle) (st : log.State) (pb : log.Builder) (cp : Checkpoint) where
  -- The three lines of the summary say PASS exactly if the program exits with 0, for a suite of
  -- 1000 records, 10 snapshots and 50 draws.
  pub pass_or_fail-exit_code :
      (records : List EntryRecord) (snapshots : List Bytes) (draws : List ℕ)
      → length records ≡ corr_total
      → length snapshots ≡ corr_snapshots
      → length draws ≡ corr_neg_tests
      → let res = check_all log m st pb cp records snapshots draws in
        (exit_code res ≡ 0) ↔ (
          (pass_or_fail res.inclusion_passed res.inclusion_total ≡ codes "PASS")
          × (pass_or_fail res.consistency_passed res.consistency_total ≡ codes "PASS")
          × (pass_or_fail res.negative_passed res.negative_total ≡ codes "PASS"))
  pass_or_fail-exit_code records snapshots draws hr hs hd =
      let (inc, cons, neg) = check_all-counts log m st pb cp records snapshots draws hr hs hd in
      let (ti, tc, tn) = check_all-totals log m st pb cp records snapshots draws in
      (
        λ done.
            let (fi, fc, fn) = exit_code_sound _ done in
            (
              (pass_or_fail_iff _ _ (omega arith)).1 (omega arith),
              (pass_or_fail_iff _ _ (omega arith)).1 (omega arith),
              (pass_or_fail_iff _ _ (omega arith)).1 (omega arith),
            ),
        λ (pi, pc, pn).
            let ei = (pass_or_fail_iff _ _ (omega arith)).0 pi in
            let ec = (pass_or_fail_iff _ _ (omega arith)).0 pc in
            let en = (pass_or_fail_iff _ _ (omega arith)).0 pn in
            exit_code_complete _ (omega arith) (omega arith) (omega arith),
      )

tests :
    (commaf (codes "1234567") ≡ codes "1,234,567")
    × (commaf (codes "123456") ≡ codes "123,456")
    × (commaf (codes "999") ≡ codes "999")
unfolding commaf
tests = (refl, refl, refl)
