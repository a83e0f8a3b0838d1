-- ===== src/Bench/Summary.antt =====
-- The formatting helpers of the summary: `passOrFail` and `commaf`.
pub mod Laws
use tessera_transparency.Base.{
  ℕ, suc, ◌-◌, ◌%◌, List, [], ◌∷◌, Bytes, codes, length, ltb, leb, ◌==◌, if◌then◌else◌, ◌&&◌, Bool,
}

-- `passOrFail`
unfoldable pub pass_or_fail : ℕ → ℕ → Bytes
pass_or_fail passed total = if ltb 0 total && passed == total then codes "PASS" else codes "FAIL"

abbrev pub comma : ℕ
comma = b','

-- The loop of `commaf` at index `i` of a text of `n` bytes.
insert_commas : ℕ → ℕ → Bytes → Bytes
insert_commas n i [] = []
insert_commas n i (c ∷ s) =
    let rest = insert_commas n (suc i) s in
    if ltb 0 i && (n - i) % 3 == 0 then comma ∷ c ∷ rest else c ∷ rest

-- `commaf`, behind `fmt.Sprintf("%.0f", v)`, which gives the digits.
unfoldable pub commaf : Bytes → Bytes
unfolding insert_commas
commaf s = if leb (length s) 3 then s else insert_commas (length s) 0 s
