-- ===== src/Bench/Attempts/Laws.antt =====
-- The results of `runLatencyPhase` do not depend on how its goroutines are interleaved.
use mathlib.Core.Path.{subst, subst₂}
use mathlib.Core.List.{Permᴰ}
use tessera_transparency.Base.{
  ℕ, suc, ◌≡◌, refl, ap, sym, ◌∙◌, ◌⊎◌, List, [], ◌∷◌, ◌++◌, length, get_or, none, some, Bytes, ltb,
  if◌then◌else◌, Bool-cases, inl, inr, Option-cases,
}
use tessera_transparency.Log.{Merkle}
use tessera_transparency.Bench.Leaves.{Leaves}
use tessera_transparency.Bench.Client.{check_answer}
use tessera_transparency.Bench.Latency.{insert, sort, p50_index, p99_index, percentiles}
use tessera_transparency.Bench.Latency.Laws.{length-sort}
use tessera_transparency.Bench.Latency.Orders.{sort-snoc, sort-snoc-snoc}
use tessera_transparency.Bench.Reports.{Floats, ThroughputResult, LatencyResult}
use tessera_transparency.Bench.Attempts.{
  Outcome, unsent, answered, Attempt, Tally, no_reqs, on_outcome, on_attempt, on_attempts, Rounds,
  milliseconds, level_result, is_idle, run_level, run_latency,
}

-- One more request, which took `d`.
abbrev bump : ℕ → Tally → Tally
bump d t = record { total_reqs = suc t.total_reqs; durations = t.durations ++ d ∷ [] }

-- The same requests, counted in another order.
abbrev IsSame : Tally → Tally → Type 0
IsSame t t' = (t.total_reqs ≡ t'.total_reqs) × (sort t.durations ≡ sort t'.durations)

bump-IsSame : (d : ℕ) (t t' : Tally) → IsSame t t' → IsSame (bump d t) (bump d t')
bump-IsSame d t t' (total, ds) =
    (ap suc total, sort-snoc d t.durations ∙ ap (insert d) ds ∙ sym (sort-snoc d t'.durations))

bump-bump-IsSame :
    (a b : ℕ) (t t' : Tally) → IsSame t t' → IsSame (bump b (bump a t)) (bump a (bump b t'))
bump-bump-IsSame a b t t' (total, ds) =
    (ap (λ n. suc (suc n)) total, sort-snoc-snoc a b t.durations t'.durations ds)

module _ (m : Merkle) (leaves : Leaves) where
  -- A round counts in every tally, or in none.
  abbrev Counts : Attempt → Type 0
  Counts a =
      ((t : Tally) → on_attempt m leaves a t ≡ t)
      ⊎ ((d : ℕ) × ((t : Tally) → on_attempt m leaves a t ≡ bump d t))

  counted_or_not :
      (a : Attempt) (leaf : Bytes) (o : Outcome)
      → get_or leaves a.drawn none ≡ some leaf
      → a.outcome ≡ o
      → Counts a
  unfolding on_attempt on_outcome
  counted_or_not a leaf unsent found e = inl (λ t. rw (found, on_attempt, e))
  counted_or_not a leaf (answered status body elapsed) found e =
      elim (Bool-cases (check_answer m a.drawn leaf status body)) [
        | inl good ↦ inr (elapsed, λ t. rw (found, on_attempt, e, good))
        | inr bad ↦ inl (λ t. rw (found, on_attempt, e, bad))
      ]

  effect : (a : Attempt) → Counts a
  unfolding on_attempt
  effect a = elim (Option-cases (get_or leaves a.drawn none)) [
    | inl missing ↦ inl (λ t. rw (missing, on_attempt))
    | inr (leaf, found) ↦ counted_or_not a leaf a.outcome found refl
  ]

  on_attempt-IsSame :
      (a : Attempt) (t t' : Tally)
      → IsSame t t'
      → IsSame (on_attempt m leaves a t) (on_attempt m leaves a t')
  on_attempt-IsSame a t t' same = elim (effect a) [
    | inl still ↦ subst₂ IsSame (sym (still t)) (sym (still t')) same
    | inr (d, counted) ↦
        subst₂ IsSame (sym (counted t)) (sym (counted t')) (bump-IsSame d t t' same)
  ]

  on_attempts-IsSame :
      (rounds : List Attempt) (t t' : Tally)
      → IsSame t t'
      → IsSame (on_attempts m leaves rounds t) (on_attempts m leaves rounds t')
  unfolding on_attempts
  on_attempts-IsSame [] t t' same = same
  on_attempts-IsSame (a ∷ rounds) t t' same =
      on_attempts-IsSame rounds (on_attempt m leaves a t) (on_attempt m leaves a t')
        (on_attempt-IsSame a t t' same)

  swap-IsSame :
      (a b : Attempt) (t t' : Tally)
      → IsSame t t'
      → IsSame
          (on_attempt m leaves b (on_attempt m leaves a t))
          (on_attempt m leaves a (on_attempt m leaves b t'))
  swap-IsSame a b t t' same = elim (effect a) [
    | inl no_a ↦
        subst₂ IsSame (ap (on_attempt m leaves b) (sym (no_a t))) (sym (no_a _))
          (on_attempt-IsSame b t t' same)
    | inr (d, yes_a) ↦ elim (effect b) [
      | inl no_b ↦
          subst₂ IsSame (sym (no_b _)) (ap (on_attempt m leaves a) (sym (no_b t')))
            (on_attempt-IsSame a t t' same)
      | inr (e, yes_b) ↦
          subst₂ IsSame (sym (ap (on_attempt m leaves b) (yes_a t) ∙ yes_b (bump d t)))
            (sym (ap (on_attempt m leaves a) (yes_b t') ∙ yes_a (bump e t')))
            (bump-bump-IsSame d e t t' same)
    ]
  ]

  Perm-IsSame :
      {xs ys : List Attempt}
      → Permᴰ xs ys
      → (t t' : Tally) → IsSame t t'
      → IsSame (on_attempts m leaves xs t) (on_attempts m leaves ys t')
  unfolding on_attempts
  Perm-IsSame Permᴰ.nil t t' same = same
  Perm-IsSame {xs = a ∷ xs} {ys = b ∷ ys} (Permᴰ.cons e p) t t' same =
      Perm-IsSame p (on_attempt m leaves a t) (on_attempt m leaves b t') (
        subst (λ x. IsSame (on_attempt m leaves a t) (on_attempt m leaves x t')) e
          (on_attempt-IsSame a t t' same))
  Perm-IsSame {xs = a ∷ b ∷ rounds} {ys = b' ∷ a' ∷ rounds'} (Permᴰ.swap e e') t t' same =
      subst₂
        (λ x y.
          IsSame (on_attempts m leaves (a ∷ b ∷ rounds) t)
            (on_attempts m leaves rounds (on_attempt m leaves x (on_attempt m leaves y t'))))
        e e'
        (on_attempts-IsSame rounds (on_attempt m leaves b (on_attempt m leaves a t))
          (on_attempt m leaves a (on_attempt m leaves b t')) (swap-IsSame a b t t' same))
  Perm-IsSame (Permᴰ.trans p q) t t' same =
      let (total, ds) = Perm-IsSame p t t' same in
      let (total', ds') = Perm-IsSame q t' t' (refl, refl) in (total ∙ total', ds ∙ ds')

percentiles_of_sort : (ds es : List ℕ) → sort ds ≡ sort es → percentiles ds ≡ percentiles es
unfolding percentiles
percentiles_of_sort ds es same = ap of_sorted same
  where
    of_sorted : List ℕ → ℕ × ℕ
    of_sorted sorted =
        let n = length sorted in
        if ltb 0 n then (get_or sorted (p50_index n) 0, get_or sorted (p99_index n) 0) else (0, 0)

module _ (fl : Floats) (quotient : ℕ → ℕ → fl.Float) (zero : fl.Float) (m : Merkle) where
  level_result-IsSame :
      (concurrency : ℕ) (seconds : fl.Float) (t t' : Tally)
      → IsSame t t'
      → level_result fl quotient zero m concurrency seconds t
        ≡ level_result fl quotient zero m concurrency seconds t'
  unfolding level_result
  level_result-IsSame concurrency seconds t t' (total, ds) =
      let n = length t.durations in
      let len : length t.durations ≡ length t'.durations =
        sym (length-sort t.durations) ∙ ap (λ l. length l) ds ∙ length-sort t'.durations in
      let ps = percentiles_of_sort t.durations t'.durations ds in
      λ i. record {
        concurrency = concurrency;
        duration = seconds;
        total_reqs = total i;
        p50ms = milliseconds fl quotient zero m (len i) (ps i).0;
        p99ms = milliseconds fl quotient zero m (len i) (ps i).1;
      }

  run_level-Perm :
      (leaves : Leaves) (concurrency : ℕ) (r r' : Rounds fl)
      → Permᴰ r.attempts r'.attempts
      → r.seconds ≡ r'.seconds
      → run_level fl quotient zero m leaves concurrency r
        ≡ run_level fl quotient zero m leaves concurrency r'
  unfolding run_level
  run_level-Perm leaves concurrency r r' p same =
      level_result-IsSame concurrency r.seconds _ _
        (Perm-IsSame m leaves p no_reqs no_reqs (refl, refl))
      ∙ ap
          (λ s.
            level_result fl quotient zero m concurrency s
              (on_attempts m leaves r'.attempts no_reqs))
          same

  -- The results of the latency phase do not depend on the interleaving of its goroutines: where the
  -- same rounds are counted in another order at each level, in the same time, the results are equal.
  pub run_latency-Perm :
      (a : ThroughputResult fl) (rounds rounds' : ℕ → Rounds fl)
      → ((c : ℕ) → Permᴰ (rounds c).attempts (rounds' c).attempts)
      → ((c : ℕ) → (rounds c).seconds ≡ (rounds' c).seconds)
      → run_latency fl quotient zero m a rounds ≡ run_latency fl quotient zero m a rounds'
  unfolding run_latency
  run_latency-Perm a rounds rounds' p same =
      let level = λ (c : ℕ). run_level-Perm a.leaf_hashes c (rounds c) (rounds' c) (p c) (same c) in
      ap
        (λ (ls : LatencyResult fl × LatencyResult fl).
          if is_idle fl quotient zero m a then [] else ls.0 ∷ ls.1 ∷ [])
        (λ i. (level 10 i, level 50 i))
