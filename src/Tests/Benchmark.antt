-- ===== src/Tests/Benchmark.antt =====
-- The benchmark and its suite, on small inputs.
use tessera_transparency.Base.{
  ℕ, ◌+◌, ◌≤◌, ◌<◌, ◌≡◌, refl, ◌↔◌, List, [], ◌∷◌, some, arith, Bytes, ok, codes, get_or, All, zero,
  suc, ◌≢◌,
}
use tessera_transparency.Signer.Tokens.Laws.{seeded}
use tessera_transparency.Signer.Keys.{Signer}
use tessera_transparency.Text.Decimal
use tessera_transparency.Api.Response.{Request, ok_status, write_json}
use tessera_transparency.Api.Handlers.{handle_prove, parse_uint, read_cp, prove_response, hex_slice}
use tessera_transparency.Bench.Leaves.{Leaves, confirm_all}
use tessera_transparency.Bench.Leaves.Laws.{leaf_at, last_hash, leaf_at-confirm_all}
use tessera_transparency.Bench.Client.{check_answer, accepts}
use tessera_transparency.Bench.Client.Laws.{json_text, check_answer-handle_prove}
use tessera_transparency.Bench.Correctness.{EntryRecord, zero_record, check_all, exit_code}
use tessera_transparency.Bench.Correctness.Laws.{pairs_of}
use tessera_transparency.Bench.Correctness.Meaning.{
  IsIncluded, IsExtended, IsRejected, exit_code-check_all,
}
use tessera_transparency.Bench.Latency.{percentiles}
use tessera_transparency.Bench.Latency.Laws.{at_most, at_least, percentiles_lem}
use tessera_transparency.Tests.Instances.{
  toy_log, toy_merkle, toy_checkpoint, toy_ed25519, toy_ed25519-IsLawful, toy_seed, toy_vkey,
}

-- Two entries, of which the second is confirmed first.
abbrev confirmations : List (ℕ × Bytes)
confirmations = (1, codes "b") ∷ (0, codes "a") ∷ []

leaf_at-confirm_all_example :
    (ls : Leaves) × (confirm_all confirmations [] ≡ some ls)
    × ((j : ℕ) → leaf_at ls j ≡ last_hash confirmations j (leaf_at [] j))
leaf_at-confirm_all_example = leaf_at-confirm_all confirmations [] (omega arith)

abbrev entries : List Bytes
entries = codes "one" ∷ codes "two" ∷ []

abbrev prove_one : Request
prove_one = record {
  method = codes "GET";
  path = codes "/token/prove";
  query = λ name. codes "1";
  body = [];
}

abbrev toy_proof : List Bytes
toy_proof = (1 ∷ []) ∷ (2 ∷ []) ∷ []

one_parsed : parse_uint prove_one (codes "index") ≡ ok 1
unfolding parse_uint Decimal.parse
one_parsed = refl

head_read : read_cp toy_log toy_merkle entries ≡ ok (toy_checkpoint 2)
unfolding read_cp
head_read = refl

check_answer-handle_prove_example :
    let answer = prove_response 1 (toy_checkpoint 2) (hex_slice toy_proof) in
    (handle_prove toy_log toy_merkle prove_one entries ≡ write_json answer)
    × (check_answer toy_merkle 1 (codes "leaf") ok_status (json_text answer)
        ≡ accepts (toy_merkle.verify_inclusion 1 2 (codes "leaf") toy_proof (2 ∷ [])))
check_answer-handle_prove_example =
    check_answer-handle_prove toy_log toy_merkle prove_one entries 1 (toy_checkpoint 2) 2 toy_proof
      (codes "leaf") one_parsed head_read (omega arith) (omega arith) refl refl (omega arith)
      (omega arith)

abbrev one_record : EntryRecord
one_record = record { log_index = 1; token_data = some (codes "two"); leaf_hash = codes "leaf" }

filled : (i : ℕ) → (get_or (one_record ∷ []) i zero_record).token_data ≢ some []
filled zero = λ e. ground arith
filled (suc i) = λ e. ground arith

exit_code-check_all_example :
    (exit_code (
        check_all toy_log toy_merkle entries 2
          (toy_checkpoint 2)
          (one_record ∷ [])
          ((1 ∷ []) ∷ (2 ∷ []) ∷ [])
          (0 ∷ []))
      ≡ 0)
    ↔ (All (IsIncluded toy_log toy_merkle entries 2 (toy_checkpoint 2)) (one_record ∷ [])
        × All
            (IsExtended toy_log toy_merkle entries 2 (toy_checkpoint 2))
            (pairs_of ((1 ∷ []) ∷ (2 ∷ []) ∷ []))
        × All
            (λ i.
              IsRejected toy_log toy_merkle entries 2
                (toy_checkpoint 2)
                (get_or (one_record ∷ []) i zero_record))
            (0 ∷ []))
exit_code-check_all_example =
    exit_code-check_all toy_log toy_merkle entries 2 (toy_checkpoint 2) (one_record ∷ [])
      ((1 ∷ []) ∷ (2 ∷ []) ∷ []) (0 ∷ []) filled

percentiles_lem_example :
    let (p50, p99) = percentiles (30 ∷ 10 ∷ 20 ∷ []) in
    (1 < at_most p50 (30 ∷ 10 ∷ 20 ∷ []))
    × (2 < at_most p99 (30 ∷ 10 ∷ 20 ∷ []))
    × (3 ≤ 1 + at_least p50 (30 ∷ 10 ∷ 20 ∷ []))
    × (3 ≤ 2 + at_least p99 (30 ∷ 10 ∷ 20 ∷ []))
percentiles_lem_example = percentiles_lem (30 ∷ 10 ∷ 20 ∷ []) (omega arith)

abbrev signer : Signer
signer = seeded toy_ed25519 toy_ed25519-IsLawful toy_vkey toy_seed refl
