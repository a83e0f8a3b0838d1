-- ===== src/Sprints/Split.antt =====
-- `splitLines` of cmd/sprint2 and cmd/sprint3, `splitBy` and `dirOf` of cmd/sprint3.
pub mod Laws
use tessera_transparency.Base.{
  ℕ, zero, suc, ◌-◌, ◌+◌, List, [], ◌∷◌, ◌++◌, Bytes, length, take, drop, get_or, bytes_eq, ◌==◌,
  if◌then◌else◌, codes,
}
use tessera_transparency.Text.Split.{split}
use tessera_transparency.Signer.Lines.{newline}

-- `s[i:j]`
abbrev pub slice : Bytes → ℕ → ℕ → Bytes
slice s i j = take (j - i) (drop i s)

-- The loop of `splitBy` at index `i`, with the bytes from there on.
split_loop : ℕ → Bytes → ℕ → ℕ → Bytes → List Bytes → List Bytes
split_loop sep s i start [] out = out ++ slice s start (length s) ∷ []
split_loop sep s i start (c ∷ rest) out =
    let cut = split_loop sep s (suc i) (suc i) rest (out ++ slice s start i ∷ []) in
    let go_on = split_loop sep s (suc i) start rest out in if c == sep then cut else go_on

unfoldable pub split_by : ℕ → Bytes → List Bytes
unfolding split_loop
split_by sep s = split_loop sep s 0 0 s []

-- `if l != "" { out = append(out, l) }`
keep_filled : List Bytes → List Bytes
keep_filled [] = []
keep_filled (l ∷ ls) = let rest = keep_filled ls in if bytes_eq l [] then rest else l ∷ rest

-- `splitLines` of cmd/sprint2
unfoldable pub filled_lines : Bytes → List Bytes
unfolding keep_filled
filled_lines s = keep_filled (split newline s)

-- `splitLines` of cmd/sprint3
unfoldable pub filled_lines_by : Bytes → List Bytes
unfolding keep_filled
filled_lines_by s = keep_filled (split_by newline s)

-- The loop of `dirOf`, from the end.
dir_loop : Bytes → ℕ → Bytes
dir_loop path zero = codes "."
dir_loop path (suc i) =
    let rest = dir_loop path i in if get_or path i 0 == b'/' then take i path else rest

unfoldable pub dir_of : Bytes → Bytes
unfolding dir_loop
dir_of path = dir_loop path (length path)
