-- ===== src/Tests/Reports.antt =====
-- The files of cmd/sprint4, on a disk that is a list of files.
use tessera_transparency.Base.{
  ℕ, codes, replicate, map, ◌≡◌, refl, ◌≢◌, ap, sym, ◌∙◌, List, [], ◌∷◌, none, some, Option, Bytes,
  true, ok, Result, bytes_eq, bytes_eq_refl, bytes_eq_sound, if◌then◌else◌, arith, Bool-cases, inl,
  inr,
}
use mathlib.Core.List.{Permᴰ}
use mathlib.Core.Option
use tessera_transparency.Text.Decimal
use tessera_transparency.Text.Hex
use tessera_transparency.Json.Value.{print}
use tessera_transparency.Json.Parse.{parse_first, read_value}
use tessera_transparency.Json.Quote.{escape, raw_string, unquote}
use tessera_transparency.Json.Number.{scan_number}
use tessera_transparency.Schema.Fields.{read_struct, read_members, read_string, read_uint, names}
use tessera_transparency.Bench.Client.{check_answer}
use tessera_transparency.Bench.Latency.{percentiles}
use tessera_transparency.Api.Handlers.{prove_response, hex_slice}
use tessera_transparency.Bench.Client.Laws.{json_text}
use tessera_transparency.Bench.Attempts.{Attempt, Rounds, answered, unsent, run_latency}
use tessera_transparency.Bench.Attempts.Laws.{run_latency-Perm}
use tessera_transparency.Tests.Instances.{toy_merkle, toy_checkpoint}
use tessera_transparency.Bench.Correctness.{CorrResult, start_result, exit_code}
use tessera_transparency.Bench.Reports.{
  Floats, ThroughputResult, LatencyResult, csv_text, correctness_rows,
}
use tessera_transparency.Bench.Reports.Laws.{read_counts, read_csv, read_counts-correctness_rows}
use tessera_transparency.Bench.Run.{
  Fatal, Phases, write_measured, write_latency, finish, run, run_fresh, measure, exit_status,
}
use tessera_transparency.Bench.Run.Files.{IsDisk}
use tessera_transparency.Bench.Run.Laws.{IsPassed, exit_status-IsPassed}

-- The numbers of the suite as it passes.
abbrev passed : CorrResult
passed = record start_result {
  inclusion_passed = 1000;
  consistency_passed = 9;
  negative_passed = 50;
}

read_counts-correctness_rows_example :
    read_counts (read_csv (csv_text (correctness_rows passed))) ≡ some passed
read_counts-correctness_rows_example =
    read_counts-correctness_rows passed
      (record { inclusion = omega arith; consistency = omega arith; negative = omega arith })

abbrev pub whole : Floats
whole = record { Float = ℕ; fixed = λ n v. Decimal.format v }

abbrev pub thousand : Bytes → ℕ → ThroughputResult whole
thousand label rate = record {
  label = label;
  target = rate;
  duration = 30;
  confirmed = 30000;
  rate = 1000;
  leaf_hashes = [];
}

abbrev pub Disk : Type 0
Disk = List (Bytes × Bytes)

abbrev pub find : Disk → Bytes → Option Bytes
find [] name = none
find ((n, text) ∷ d) name = if bytes_eq name n then some text else find d name

abbrev pub phases : Phases whole
phases = record {
  State = Disk;
  prepare = λ fresh d. (d, ok tt);
  run_throughput = λ label rate d. (d, ok (thousand label rate));
  measure_dir_bytes = λ d. 60000;
  quotient = λ a b. a;
  zero = 0;
  run_latency = λ r d. (d, ok []);
  run_correctness = λ d. (d, ok passed);
  write_file = λ name text d. ((name, text) ∷ d, ok tt);
}

find_other : (name n text : Bytes) (d : Disk) → name ≢ n → find ((n, text) ∷ d) name ≡ find d name
find_other name n text d ne = elim (Bool-cases (bytes_eq name n)) [
  | inl same ↦ absurd (ne (bytes_eq_sound name n same))
  | inr other ↦ rw other
]

pub phases-IsDisk : IsDisk whole phases
phases-IsDisk = record {
  file = find;
  written = λ name text st st' h.
      sym (ap (λ (p : Disk × Result Fatal (Unit {0})). find p.0 name) h)
      ∙ (rw (bytes_eq_refl name));
  others = λ name text other st st' h ne.
      sym (ap (λ (p : Disk × Result Fatal (Unit {0})). find p.0 other) h)
      ∙ find_other other name text st ne;
}

exit_status-IsPassed_example : IsPassed whole phases phases-IsDisk (run whole phases true []).0
unfolding exit_status run run_fresh measure write_measured write_latency finish exit_code
exit_status-IsPassed_example = exit_status-IsPassed whole phases phases-IsDisk true [] refl

-- Two rounds at each level, the second of them without an answer, counted in both orders.
abbrev served : Attempt
served = record {
  drawn = 0;
  outcome =
      answered 200 (json_text (prove_response 0 (toy_checkpoint 1) (hex_slice ((1 ∷ []) ∷ []))))
        1500000;
}

abbrev missed : Attempt
missed = record { drawn = 0; outcome = unsent }

abbrev forth : ℕ → Rounds whole
forth c = record { attempts = served ∷ missed ∷ []; seconds = 30 }

abbrev back : ℕ → Rounds whole
back c = record { attempts = missed ∷ served ∷ []; seconds = 30 }

abbrev measured : ThroughputResult whole
measured = record (thousand (codes "A") 1000) { leaf_hashes = some (replicate 32 1) ∷ [] }

served_counts :
    map
      (λ (r : LatencyResult whole). r.total_reqs)
      (run_latency whole (λ a b. a) 0 toy_merkle measured forth)
    ≡ 1 ∷ 1 ∷ []
unfolding run_latency check_answer read_struct read_members read_string read_uint names parse_first
    read_value json_text print escape raw_string unquote scan_number Decimal.format Decimal.emit
    Decimal.parse Hex.encode Hex.decode hex_slice Option.bind percentiles
served_counts = refl

run_latency-Perm_example :
    run_latency whole (λ a b. a) 0 toy_merkle measured forth
    ≡ run_latency whole (λ a b. a) 0 toy_merkle measured back
run_latency-Perm_example =
    run_latency-Perm whole (λ a b. a) 0 toy_merkle measured forth back (λ c. Permᴰ.swap refl refl)
      (λ c. refl)
