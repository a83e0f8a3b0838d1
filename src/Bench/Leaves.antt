-- ===== src/Bench/Leaves.antt =====
-- The table of leaf hashes of `runThroughput`, which grows as confirmations come in, in any order.
pub mod Laws
use tessera_transparency.Base.{
  ℕ, zero, suc, ◌+◌, ◌%◌, ◌^◌, List, [], ◌∷◌, ◌++◌, Option, none, some, Bytes, length, set, ltb,
  if◌then◌else◌,
}
use tessera_transparency.Base.Options.{◌>>=◌}

-- `leafHashes`; nil where no confirmation has come in.
abbrev pub Leaves : Type 0
Leaves = List (Option Bytes)

-- `for uint64(len(leafHashes)) < need`: the fuel is the largest number of rounds.
unfoldable pub grow : ℕ → ℕ → Leaves → Leaves
grow zero need ls = ls
grow (suc f) need ls =
    let more = grow f need (ls ++ none ∷ []) in if ltb (length ls) need then more else ls

-- What a goroutine does under the lock with the index of its entry and its leaf hash. `need` is a
-- uint64; a write behind the end of the table panics: then there is no table.
unfoldable pub confirm : ℕ → Bytes → Leaves → Option Leaves
unfolding grow
confirm idx lh ls =
    let need = (idx + 1) % 2 ^ 64 in
    let grown = grow need need ls in
    if ltb idx (length grown) then some (set grown idx (some lh)) else none

-- The confirmations of a run, in the order in which the goroutines take the lock.
unfoldable pub confirm_all : List (ℕ × Bytes) → Leaves → Option Leaves
unfolding confirm
confirm_all [] ls = some ls
confirm_all ((idx, lh) ∷ es) ls = confirm idx lh ls >>= confirm_all es
