-- ===== src/Bench/Correctness/Counting.antt =====
-- How many checks of the suite pass and fail.
use tessera_transparency.Base.{
  ℕ, suc, ◌+◌, ◌≡◌, refl, List, [], ◌∷◌, length, All, arith, Bool, true, if◌then◌else◌,
}

module _ {A : Type 0} (p : A → Bool) where
  -- How many elements pass a check, and how many fail it.
  unfoldable pub passing : List A → ℕ
  passing [] = 0
  passing (x ∷ xs) = let n = passing xs in if p x then suc n else n

  unfoldable pub failing : List A → ℕ
  failing [] = 0
  failing (x ∷ xs) = let n = failing xs in if p x then n else suc n

  pub passing-failing : (xs : List A) → passing xs + failing xs ≡ length xs
  unfolding passing failing
  passing-failing [] = refl
  passing-failing (x ∷ xs) = ground (arith, passing-failing xs)

  abbrev pub AllPass : List A → Type 0
  AllPass = All (λ x. p x ≡ true)

  pub failing-AllPass : (xs : List A) → failing xs ≡ 0 → AllPass xs
  unfolding failing
  failing-AllPass [] h = tt
  failing-AllPass (x ∷ xs) h = (ground arith, failing-AllPass xs (ground arith))

  pub AllPass-failing : (xs : List A) → AllPass xs → failing xs ≡ 0
  unfolding failing
  AllPass-failing [] h = refl
  AllPass-failing (x ∷ xs) (hx, h) = rw hx (AllPass-failing xs h)
