-- ===== src/Bench/Latency.antt =====
-- The percentiles of `runLatencyLevel`, in nanoseconds: the program divides them by a million.
pub mod Laws
pub mod Orders
use tessera_transparency.Base.{
  ℕ, suc, ◌-◌, ◌*◌, ◌/◌, List, [], ◌∷◌, length, get_or, leb, ltb, if◌then◌else◌,
}

unfoldable pub insert : ℕ → List ℕ → List ℕ
insert x [] = x ∷ []
insert x (y ∷ ys) = let rest = insert x ys in if leb x y then x ∷ y ∷ ys else y ∷ rest

-- `sort.Slice(durations, …)`: numbers have one increasing order.
unfoldable pub sort : List ℕ → List ℕ
unfolding insert
sort [] = []
sort (x ∷ xs) = insert x (sort xs)

-- `durations[n*50/100]`
unfoldable pub p50_index : ℕ → ℕ
p50_index n = n * 50 / 100

-- `p99idx`, behind its guard.
unfoldable pub p99_index : ℕ → ℕ
p99_index n = let i = n * 99 / 100 in if leb n i then n - 1 else i

-- `p50` and `p99`
unfoldable pub percentiles : List ℕ → ℕ × ℕ
unfolding sort p50_index p99_index
percentiles durations =
    let sorted = sort durations in
    let n = length sorted in
    if ltb 0 n then (get_or sorted (p50_index n) 0, get_or sorted (p99_index n) 0) else (0, 0)
