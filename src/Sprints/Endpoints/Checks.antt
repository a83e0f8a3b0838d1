-- ===== src/Sprints/Endpoints/Checks.antt =====
-- What the checks in `main` of cmd/sprint3 have seen when they pass.
use mathlib.Core.Path.{subst}
use tessera_transparency.Base.{
  ℕ, ◌<◌, ◌≡◌, ap, List, [], ◌∷◌, All, Bytes, ok, wrap, wrap_ok, bind_ok, ◌>>=◌, codes, lt→ltb,
  arith,
}
use tessera_transparency.Base.Programs.{Program, continue_ok, lift_ok, call_ok}
use tessera_transparency.Text.Decimal
use tessera_transparency.Log.{Log, Merkle, Failure}
use tessera_transparency.Api.Response.{Request, not_found, bad_request}
use tessera_transparency.Sprints.Endpoints.{
  fatal, inclusion_failed, consistency_failed, Answer, Numbers, get, as_hashes, prove_request,
  far_request, empty_request, do_get,
}
use tessera_transparency.Sprints.Endpoints.Steps.{
  Entry, prove_entries, growth_request, check_growth, expect, negative_tests,
}

expect_sound : (status : ℕ) (a : Answer) → expect status a ≡ ok tt → a.status ≡ status
unfolding expect
expect_sound status a h = ground arith

module _ (log : Log) (m : Merkle) (nm : Numbers)
    (http : Request → Program log.State Failure Answer) where
  -- An entry that a proof shows to be in the tree.
  abbrev pub Included : ℕ → Bytes → Entry → Type 0
  Included size root e =
      (proof : List Bytes) × (m.verify_inclusion e.index size e.leaf_hash proof root ≡ ok tt)

  -- The tree that a proof shows to extend the old one, where it is larger.
  abbrev pub Extended : ℕ → Bytes → ℕ → Bytes → Type 0
  Extended old_size old_root size root =
      old_size < size
      → (proof : List Bytes) × (m.verify_consistency old_size size proof old_root root ≡ ok tt)

  -- A request that was answered with this status.
  abbrev pub Answered : Request → ℕ → log.State → log.State → Type 0
  Answered r status st st' = (a : Answer) × (http r st ≡ (st', ok a)) × (a.status ≡ status)

  pub prove_entries_sound :
      (size : ℕ) (root : Bytes) (es : List Entry) (st st' : log.State)
      → prove_entries log m nm http size root es st ≡ (st', ok tt)
      → All (Included size root) es
  unfolding prove_entries
  prove_entries_sound size root [] st st' h = tt
  prove_entries_sound size root (e ∷ es) st st' h =
      let one = do_get log nm http (prove_request (Decimal.format e.index)) st in
      let (ms, got, h1) = continue_ok one _ h in
      let hashes = as_hashes (get (codes "proof") ms) in
      let verdict = λ (proof : List Bytes).
        wrap (inclusion_failed e.name) (m.verify_inclusion e.index size e.leaf_hash proof root) in
      let (u, checked, h2) =
        continue_ok (one.0, hashes >>= verdict) (λ _. prove_entries log m nm http size root es)
          h1 in
      let (proof, read, h3) = bind_ok hashes verdict (ap (λ p. p.1) checked) in
      (
        (
          proof,
          wrap_ok (inclusion_failed e.name) (m.verify_inclusion e.index size e.leaf_hash proof root)
              h3,
        ),
        prove_entries_sound size root es one.0 st' h2,
      )

  pub check_growth_sound :
      (old_size : ℕ) (old_root : Bytes) (size : ℕ) (root : Bytes) (st st' : log.State)
      → check_growth log m nm http old_size old_root size root st ≡ (st', ok tt)
      → Extended old_size old_root size root
  unfolding check_growth
  check_growth_sound old_size old_root size root st st' h grown =
      let one = do_get log nm http (growth_request old_size size) st in
      let (ms, got, h1) = continue_ok one _ (rw (lt→ltb old_size size grown) at h) in
      let hashes = as_hashes (get (codes "proof") ms) in
      let verdict = λ (proof : List Bytes).
        wrap consistency_failed (m.verify_consistency old_size size proof old_root root) in
      let (proof, read, h2) = bind_ok hashes verdict (ap (λ p. p.1) h1) in
      (
        proof,
        wrap_ok consistency_failed (m.verify_consistency old_size size proof old_root root) h2,
      )

  pub negative_tests_sound :
      (st st' : log.State)
      → negative_tests log http st ≡ (st', ok tt)
      → (st1 : log.State) × Answered far_request not_found st st1
        × Answered empty_request bad_request st1 st'
  unfolding negative_tests
  negative_tests_sound st st' h =
      let one = http far_request st in
      let (a, first, h1) = continue_ok (one.0, wrap fatal one.1) _ h in
      let (u, far, h2) = continue_ok (one.0, expect not_found a) _ h1 in
      let two = http empty_request one.0 in
      let (b, second, h3) = continue_ok (two.0, wrap fatal two.1) _ h2 in
      let (refused, same) = lift_ok (expect bad_request b) h3 in
      (
        one.0,
        (a, call_ok fatal one first, expect_sound not_found a (ap (λ p. p.1) far)),
        (
          b,
          subst (λ x. two ≡ (x, ok b)) same (call_ok fatal two second),
          expect_sound bad_request b refused,
        ),
      )
