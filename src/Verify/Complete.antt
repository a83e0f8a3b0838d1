-- ===== src/Verify/Complete.antt =====
-- cmd/verify accepts what the log proves.
use tessera_transparency.Base.{
  ℕ, ◌≡◌, refl, ◌≢◌, ap, ◌∙◌, List, [], ◌∷◌, ◌++◌, some, Bytes, ok, length, leb, arith, false, ◌⊎◌,
  inl, inr,
}
use tessera_transparency.Text.Hex
use tessera_transparency.Text.Integer.{ℤ, pos, negsuc}
use tessera_transparency.Log.{Log, Merkle, Checkpoint}
use tessera_transparency.Verify.{
  Flags, Fetchers, Fault, Line, printed, of_result, and_then, required, check_inclusion,
  inclusion_part, consistency_part, hint, checks, main, is_nonneg, inclusion_verified, tree_head,
  leaf_hex_required, bad_leaf_hex,
}
use tessera_transparency.Verify.Laws.{IsIncluded, Head, main-Head}

required_complete :
    (absent bad : Fault) (s raw : Bytes)
    → s ≢ []
    → Hex.decode s ≡ some raw
    → required absent bad s ≡ ok raw
unfolding required
required_complete absent bad [] raw filled decoded = absurd (filled refl)
required_complete absent bad (c ∷ s) raw filled decoded = rw decoded

-- No consistency proof is asked for: one of its sizes is negative.
abbrev pub AsksNoGrowth : Flags → Type 0
AsksNoGrowth f = ((n : ℕ) × (f.from ≡ negsuc n)) ⊎ ((n : ℕ) × (f.to ≡ negsuc n))

module _ (log : Log) (m : Merkle) (fetchers : Fetchers log) where
  check_inclusion_complete :
      (f : Flags) (cp : Checkpoint) (st : log.State) (idx : ℕ)
      → f.leaf_hex ≢ []
      → (i : IsIncluded log m f cp st idx)
      → check_inclusion log m fetchers f cp st idx
        ≡ ok (inclusion_verified idx cp.size (length i.proof) ∷ [])
  unfolding check_inclusion
  check_inclusion_complete f cp st idx filled i =
      let leaf =
        required_complete leaf_hex_required bad_leaf_hex f.leaf_hex i.leaf filled i.leaf_decoded in
      let inside : leb cp.size idx ≡ false = ground (arith, i.covered) in
      rw (leaf, check_inclusion, inside, i.built, i.proved, i.verified)

  consistency_part_absent :
      (f : Flags) (cp : Checkpoint) (st : log.State) (from : ℤ) (n : ℕ)
      → consistency_part log m fetchers f cp st from (negsuc n) ≡ ok []
  unfolding consistency_part
  consistency_part_absent f cp st (pos k) n = refl
  consistency_part_absent f cp st (negsuc k) n = refl

  checks_inclusion :
      (f : Flags) (cp : Checkpoint) (st : log.State) (idx : ℕ) (ls : List Line)
      → f.index ≡ pos idx
      → AsksNoGrowth f
      → check_inclusion log m fetchers f cp st idx ≡ ok ls
      → checks log m fetchers f cp st ≡ printed (ls ++ [])
  unfolding checks inclusion_part consistency_part hint of_result and_then is_nonneg
  checks_inclusion f cp st idx ls asked (inl (n, absent)) proved = rw (asked, absent) (rw proved)
  checks_inclusion f cp st idx ls asked (inr (n, absent)) proved =
      rw (asked, absent) (rw (proved, consistency_part_absent f cp st f.from n))

  -- Where the log gives a proof of the leaf hash at the index that the library accepts, the leaf hash
  -- is given and not empty, and no consistency proof is asked for, since one of its sizes is
  -- negative, the program prints that the proof is verified and stops with nothing wrong.
  pub main_complete :
      (f : Flags) (idx : ℕ) (h : Head log m fetchers f)
      → f.index ≡ pos idx
      → AsksNoGrowth f
      → f.leaf_hex ≢ []
      → (i : IsIncluded log m f h.cp h.st idx)
      → main log m fetchers f
        ≡ printed (
            h.line
            ∷ tree_head h.cp.size h.cp.hash
            ∷ inclusion_verified idx h.cp.size (length i.proof)
            ∷ [])
  unfolding and_then
  main_complete f idx h asked absent filled i =
      main-Head log m fetchers f h
      ∙ ap
          (λ r.
            and_then (printed (h.line ∷ []))
              (and_then (printed (tree_head h.cp.size h.cp.hash ∷ [])) r))
          (checks_inclusion f h.cp h.st idx _ asked absent
            (check_inclusion_complete f h.cp h.st idx filled i))
