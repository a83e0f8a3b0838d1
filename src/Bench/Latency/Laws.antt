-- ===== src/Bench/Latency/Laws.antt =====
-- The rank of the percentiles among the durations.
use tessera_transparency.Base.{
  ℕ, zero, suc, ◌+◌, ◌*◌, ◌/◌, ◌≤◌, ◌<◌, ◌≡◌, refl, ap, Bool, List, [], ◌∷◌, length, get_or, leb,
  if◌then◌else◌, arith, All, Bool-cases, inl, inr, leb→le, le→leb, lt→ltb,
}
use tessera_transparency.Bench.Latency.{insert, sort, p50_index, p99_index, percentiles}

-- Both indexes are inside the list, and the guard on the second one never holds.
indexes_inside :
    (n : ℕ)
    → 0 < n
    → (p50_index n < n)
      × (p99_index n < n)
      × (p50_index n ≤ p99_index n)
      × (p99_index n ≡ n * 99 / 100)
unfolding p50_index p99_index
indexes_inside n h = ground arith

abbrev IsSorted : List ℕ → Type 0
IsSorted [] = Unit
IsSorted (x ∷ xs) = All (λ y. x ≤ y) xs × IsSorted xs

count : (ℕ → Bool) → List ℕ → ℕ
count p [] = 0
count p (x ∷ xs) = let n = count p xs in if p x then suc n else n

-- How many durations are at most, or at least, a bound.
unfoldable pub at_most : ℕ → List ℕ → ℕ
unfolding count
at_most b = count (λ x. leb x b)

unfoldable pub at_least : ℕ → List ℕ → ℕ
unfolding count
at_least b = count (λ x. leb b x)

All-insert : (P : ℕ → Type 0) (x : ℕ) (ys : List ℕ) → P x → All P ys → All P (insert x ys)
unfolding insert
All-insert P x [] hx h = (hx, tt)
All-insert P x (y ∷ ys) hx (hy, h) = elim (Bool-cases (leb x y)) [
  | inl front ↦ rw front (hx, (hy, h))
  | inr behind ↦ rw behind (hy, All-insert P x ys hx h)
]

All-le : (x y : ℕ) (ys : List ℕ) → x ≤ y → All (λ z. y ≤ z) ys → All (λ z. x ≤ z) ys
All-le x y [] h hs = tt
All-le x y (z ∷ ys) h (hz, hs) = (omega arith, All-le x y ys h hs)

insert-IsSorted : (x : ℕ) (ys : List ℕ) → IsSorted ys → IsSorted (insert x ys)
unfolding insert
insert-IsSorted x [] h = (tt, tt)
insert-IsSorted x (y ∷ ys) (hy, h) = elim (Bool-cases (leb x y)) [
  | inl front ↦ rw front ((leb→le x y front, All-le x y ys (leb→le x y front) hy), (hy, h))
  | inr behind ↦ rw behind (All-insert (λ z. y ≤ z) x ys (ground arith) hy, insert-IsSorted x ys h)
]

sort-IsSorted : (xs : List ℕ) → IsSorted (sort xs)
unfolding sort
sort-IsSorted [] = tt
sort-IsSorted (x ∷ xs) = insert-IsSorted x (sort xs) (sort-IsSorted xs)

length-insert : (x : ℕ) (ys : List ℕ) → length (insert x ys) ≡ suc (length ys)
unfolding insert
length-insert x [] = refl
length-insert x (y ∷ ys) = ground (arith, length-insert x ys)

pub length-sort : (xs : List ℕ) → length (sort xs) ≡ length xs
unfolding sort
length-sort [] = refl
length-sort (x ∷ xs) = omega (arith, length-insert x (sort xs), length-sort xs)

count-insert : (p : ℕ → Bool) (x : ℕ) (ys : List ℕ) → count p (insert x ys) ≡ count p (x ∷ ys)
unfolding count insert
count-insert p x [] = refl
count-insert p x (y ∷ ys) = ground (arith, count-insert p x ys)

count-sort : (p : ℕ → Bool) (xs : List ℕ) → count p (sort xs) ≡ count p xs
unfolding count sort
count-sort p [] = refl
count-sort p (x ∷ xs) = ground (arith, count-insert p x (sort xs), count-sort p xs)

All-get : (P : ℕ → Type 0) (xs : List ℕ) (i : ℕ) → All P xs → i < length xs → P (get_or xs i 0)
All-get P [] i h inside = absurd (omega arith)
All-get P (x ∷ xs) zero (hx, h) inside = hx
All-get P (x ∷ xs) (suc i) (hx, h) inside = All-get P xs i h (omega arith)

at_most-get :
    (xs : List ℕ) (i : ℕ) → IsSorted xs → i < length xs → suc i ≤ at_most (get_or xs i 0) xs
unfolding at_most count
at_most-get [] i h inside = absurd (omega arith)
at_most-get (x ∷ xs) zero h inside = ground arith
at_most-get (x ∷ xs) (suc i) (hx, h) inside =
    let le : x ≤ get_or xs i 0 = All-get (λ z. x ≤ z) xs i hx (omega arith) in
    rw (le→leb x (get_or xs i 0) le) (omega (arith, at_most-get xs i h (omega arith)))

at_least-All : (x : ℕ) (xs : List ℕ) → All (λ z. x ≤ z) xs → at_least x xs ≡ length xs
unfolding at_least count
at_least-All x [] h = refl
at_least-All x (y ∷ xs) (hy, h) = rw (le→leb x y hy) (ap suc (at_least-All x xs h))

at_least-get :
    (xs : List ℕ) (i : ℕ)
    → IsSorted xs
    → i < length xs
    → length xs ≤ i + at_least (get_or xs i 0) xs
unfolding at_least count
at_least-get [] i h inside = absurd (omega arith)
at_least-get (x ∷ xs) zero (hx, h) inside = ground (arith, at_least-All x xs hx)
at_least-get (x ∷ xs) (suc i) (hx, h) inside = ground (arith, at_least-get xs i h)

percentiles-sort :
    (ds : List ℕ)
    → 0 < length ds
    → percentiles ds
      ≡ (get_or (sort ds) (length ds * 50 / 100) 0, get_or (sort ds) (length ds * 99 / 100) 0)
unfolding percentiles p50_index
percentiles-sort ds filled =
    let (low, high, order, exact) = indexes_inside (length ds) filled in
    rw (length-sort ds) (rw (lt→ltb 0 (length ds) filled) (rw exact))

-- The rank of an element of the sorted list among the durations.
rank_lem :
    (ds : List ℕ) (i : ℕ)
    → i < length ds
    → (i < at_most (get_or (sort ds) i 0) ds) × (length ds ≤ i + at_least (get_or (sort ds) i 0) ds)
unfolding at_most at_least
rank_lem ds i inside =
    let b = get_or (sort ds) i 0 in
    let h = sort-IsSorted ds in
    (
      omega (
        arith,
        length-sort ds,
        at_most-get (sort ds) i h (omega (arith, length-sort ds)),
        count-sort (λ x. leb x b) ds,
      ),
      omega (
        arith,
        length-sort ds,
        at_least-get (sort ds) i h (omega (arith, length-sort ds)),
        count-sort (λ x. leb b x) ds,
      ),
    )

-- For at least one duration, the two percentiles are values that more than `n * 50 / 100` and
-- `n * 99 / 100` of the `n` durations do not exceed, and that no fewer than the others reach: their
-- ranks are those of the percentiles. The indexes of the program are inside its sorted slice, so
-- that it does not panic.
pub percentiles_lem :
    (ds : List ℕ)
    → 0 < length ds
    → let n = length ds in
      let (p50, p99) = percentiles ds in
      (n * 50 / 100 < at_most p50 ds)
      × (n * 99 / 100 < at_most p99 ds)
      × (n ≤ n * 50 / 100 + at_least p50 ds)
      × (n ≤ n * 99 / 100 + at_least p99 ds)
percentiles_lem ds filled =
    let (most50, least50) = rank_lem ds (length ds * 50 / 100) (omega arith) in
    let (most99, least99) = rank_lem ds (length ds * 99 / 100) (omega arith) in
    rw (percentiles-sort ds filled) (most50, most99, least50, least99)
