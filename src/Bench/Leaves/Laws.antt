-- ===== src/Bench/Leaves/Laws.antt =====
-- The table of leaf hashes against a map from indexes to hashes.
use tessera_transparency.Base.{
  ℕ, zero, suc, ◌+◌, ◌≤◌, ◌<◌, ◌≡◌, refl, ◌≢◌, ap, ◌∙◌, List, [], ◌∷◌, ◌++◌, Option, none, some,
  arith, Bytes, length, length-append, set, get_or, ltb, ◌==◌, ==_iff, if◌then◌else◌, Bool-cases,
  inl, inr, ◌%◌, ◌^◌, All, ltb→lt, lt→ltb,
}
use mathlib.Core.Option.{some-injective}
use tessera_transparency.Bench.Leaves.{Leaves, grow, confirm, confirm_all}

-- The hash at an index; none behind the end of the table.
abbrev pub leaf_at : Leaves → ℕ → Option Bytes
leaf_at ls j = get_or ls j none

leaf_at-append_none : (ls : Leaves) (j : ℕ) → leaf_at (ls ++ none ∷ []) j ≡ leaf_at ls j
leaf_at-append_none [] zero = refl
leaf_at-append_none [] (suc j) = refl
leaf_at-append_none (l ∷ ls) zero = refl
leaf_at-append_none (l ∷ ls) (suc j) = leaf_at-append_none ls j

-- Growing the table changes no hash.
leaf_at-grow : (f need : ℕ) (ls : Leaves) (j : ℕ) → leaf_at (grow f need ls) j ≡ leaf_at ls j
unfolding grow
leaf_at-grow zero need ls j = refl
leaf_at-grow (suc f) need ls j = elim (Bool-cases (ltb (length ls) need)) [
  | inl short ↦ rw short (leaf_at-grow f need (ls ++ none ∷ []) j ∙ leaf_at-append_none ls j)
  | inr enough ↦ rw enough
]

-- The fuel is enough: the table has the room that was asked for.
length-grow : (f need : ℕ) (ls : Leaves) → need ≤ length ls + f → need ≤ length (grow f need ls)
unfolding grow
length-grow zero need ls h = omega arith
length-grow (suc f) need ls h =
    ground (arith, length-append ls (none ∷ []), length-grow f need (ls ++ none ∷ []))

leaf_at-set_same :
    (ls : Leaves) (i : ℕ) (v : Option Bytes) → i < length ls → leaf_at (set ls i v) i ≡ v
leaf_at-set_same [] i v h = absurd (omega arith)
leaf_at-set_same (l ∷ ls) zero v h = refl
leaf_at-set_same (l ∷ ls) (suc i) v h = leaf_at-set_same ls i v (omega arith)

leaf_at-set_other :
    (ls : Leaves) (i j : ℕ) (v : Option Bytes) → j ≢ i → leaf_at (set ls i v) j ≡ leaf_at ls j
leaf_at-set_other [] i j v h = refl
leaf_at-set_other (l ∷ ls) zero zero v h = absurd (h refl)
leaf_at-set_other (l ∷ ls) zero (suc j) v h = refl
leaf_at-set_other (l ∷ ls) (suc i) zero v h = refl
leaf_at-set_other (l ∷ ls) (suc i) (suc j) v h = leaf_at-set_other ls i j v (λ e. h (ap suc e))

-- A confirmation writes its own index, whatever the size of the table, and no other.
pub leaf_at-confirm :
    (idx : ℕ) (lh : Bytes) (ls ls' : Leaves) (j : ℕ)
    → confirm idx lh ls ≡ some ls'
    → leaf_at ls' j ≡ (if j == idx then some lh else leaf_at ls j)
unfolding confirm
leaf_at-confirm idx lh ls ls' j h =
    let need = (idx + 1) % 2 ^ 64 in
    let grown = grow need need ls in
    elim (Bool-cases (ltb idx (length grown))) [
      | inr beyond ↦ absurd (ground arith)
      | inl inside ↦
          let written : set grown idx (some lh) ≡ ls' = some-injective _ _ (rw inside at h) in
          rw⁻¹ written (elim (Bool-cases (j == idx)) [
            | inl same ↦ rw same (
                rw ((==_iff j idx).0 same)
                  (leaf_at-set_same grown idx (some lh) (ltb→lt idx (length grown) inside)))
            | inr other ↦ rw other (
                leaf_at-set_other grown idx j (some lh) (λ e. ground arith)
                ∙ leaf_at-grow need need ls j)
          ])
    ]

-- Where the index has a successor in a uint64, the table gets the room for it.
pub confirm_total :
    (idx : ℕ) (lh : Bytes) (ls : Leaves)
    → idx + 1 < 2 ^ 64
    → (ls' : Leaves) × (confirm idx lh ls ≡ some ls')
unfolding confirm
confirm_total idx lh ls h =
    let need : (idx + 1) % 2 ^ 64 ≡ idx + 1 = omega arith in
    let room = length-grow (idx + 1) (idx + 1) ls (omega arith) in
    (
      set (grow (idx + 1) (idx + 1) ls) idx (some lh),
      rw need (rw (lt→ltb idx (length (grow (idx + 1) (idx + 1) ls)) (omega (arith, room)))),
    )

-- The last confirmation of an index.
unfoldable pub last_hash : List (ℕ × Bytes) → ℕ → Option Bytes → Option Bytes
last_hash [] j old = old
last_hash ((i, h) ∷ es) j old = last_hash es j (if j == i then some h else old)

-- After confirmations in any order, of indexes that are all below the largest uint64, the goroutines
-- have not panicked, and the table holds at each index the hash of the last confirmation of that
-- index, and what it held before where there is none.
pub leaf_at-confirm_all :
    (es : List (ℕ × Bytes)) (ls : Leaves)
    → All (λ e. e.0 + 1 < 2 ^ 64) es
    → (ls' : Leaves) × (confirm_all es ls ≡ some ls')
      × ((j : ℕ) → leaf_at ls' j ≡ last_hash es j (leaf_at ls j))
unfolding confirm_all last_hash
leaf_at-confirm_all [] ls small = (ls, refl, λ j. refl)
leaf_at-confirm_all ((i, h) ∷ es) ls (below, small) =
    let (ls1, one) = confirm_total i h ls below in
    let (ls2, rest, holds) = leaf_at-confirm_all es ls1 small in
    (ls2, rw one rest, λ j. holds j ∙ ap (last_hash es j) (leaf_at-confirm i h ls ls1 j one))
