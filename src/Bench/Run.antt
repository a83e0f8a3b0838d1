-- ===== src/Bench/Run.antt =====
-- `run` and `main` of cmd/sprint4: the phases, the files that are written when they have ended, and
-- the exit code. The phases before the correctness suite are parameters here, and so is the disk.
-- The printed summary is not among the results.
pub mod Files
pub mod Laws
pub mod Proved
use tessera_transparency.Base.{
  ℕ, List, [], ◌∷◌, Option, none, some, Bytes, Result, ok, err, codes, Bool, true, false, ltb,
  length, if◌then◌else◌,
}
use tessera_transparency.Base.Programs.{Program, continue, ◌>>=◌, lift}
use tessera_transparency.Bench.Correctness.{CorrResult, exit_code}
use tessera_transparency.Bench.Reports.{
  Floats, ThroughputResult, LatencyResult, csv_text, throughput_rows, storage_rows, latency_rows,
  correctness_rows,
}

-- A program that `fatalf` has ended: it exits with 1, and no deferred call is made.
pub data Fatal : Type 0 where
  fatal : Bytes → Fatal

-- What `run` calls, over the state of the world. `prepare` is the clean-up of the output directory,
-- its creation and the entry signer.
pub record Phases (fl : Floats) : Type 1 where
  pub State : Type 0
  pub prepare : Bool → Program State Fatal (Unit {0})
  pub run_throughput : Bytes → ℕ → Program State Fatal (ThroughputResult fl)
  pub measure_dir_bytes : State → ℕ
  pub quotient : ℕ → ℕ → fl.Float
  pub zero : fl.Float
  pub run_latency : ThroughputResult fl → Program State Fatal (List (LatencyResult fl))
  pub run_correctness : Program State Fatal CorrResult
  -- A file is created, written and flushed.
  pub write_file : Bytes → Bytes → Program State Fatal (Unit {0})

abbrev pub throughput_csv : Bytes
throughput_csv = codes "data/sprint4/throughput.csv"

abbrev pub storage_csv : Bytes
storage_csv = codes "data/sprint4/storage.csv"

abbrev pub latency_csv : Bytes
latency_csv = codes "data/sprint4/latency.csv"

abbrev pub correctness_csv : Bytes
correctness_csv = codes "data/sprint4/correctness.csv"

module _ (fl : Floats) (ph : Phases fl) where
  -- The results of the phases that `--fresh=false` skips.
  pub record Measured : Type 0 where
    pub result_a : ThroughputResult fl
    pub result_b : ThroughputResult fl
    pub storage_bytes : ℕ
    pub bytes_per_entry : fl.Float
    pub lat_results : List (LatencyResult fl)

  -- `bytesPerEntry`, where an entry was confirmed.
  unfoldable pub per_entry : ℕ → ℕ → fl.Float
  per_entry bytes confirmed = if ltb 0 confirmed then ph.quotient bytes confirmed else ph.zero

  -- Parts 1 and 2.
  unfoldable pub measure : Program ph.State Fatal Measured
  unfolding per_entry
  measure = ph.run_throughput (codes "A") 1000 >>= λ a. λ st.
      let bytes = ph.measure_dir_bytes st in
      (ph.run_throughput (codes "B") 10000 >>= λ b. ph.run_latency a >>= λ lat. lift (
          ok (record {
            result_a = a;
            result_b = b;
            storage_bytes = bytes;
            bytes_per_entry = per_entry bytes a.confirmed;
            lat_results = lat;
          })))
        st

  -- `if len(latResults) > 0 { writeLatencyCSV(latResults) }`
  unfoldable pub write_latency : List (LatencyResult fl) → Program ph.State Fatal (Unit {0})
  write_latency [] = lift (ok tt)
  write_latency (r ∷ rs) = ph.write_file latency_csv (csv_text (latency_rows fl (r ∷ rs)))

  -- The files of the phases that `--fresh=false` skips.
  unfoldable pub write_measured : Measured → Program ph.State Fatal (Unit {0})
  unfolding write_latency
  write_measured d =
      ph.write_file throughput_csv (csv_text (throughput_rows fl (d.result_a ∷ d.result_b ∷ [])))
      >>= λ _.
          ph.write_file storage_csv
            (csv_text (storage_rows fl d.result_a.confirmed d.storage_bytes d.bytes_per_entry))
          >>= λ _. write_latency d.lat_results

  -- The end of `run`: the deferred function runs when the exit code is known.
  unfoldable pub finish : CorrResult → Program ph.State Fatal (Unit {0}) → Program ph.State Fatal ℕ
  finish res deferred = deferred >>= λ _.
      ph.write_file correctness_csv (csv_text (correctness_rows res)) >>= λ _.
      lift (ok (exit_code res))

  unfoldable pub run_fresh : Program ph.State Fatal ℕ
  unfolding measure write_measured finish
  run_fresh = measure >>= λ d. ph.run_correctness >>= λ res. finish res (write_measured d)

  unfoldable pub run_again : Program ph.State Fatal ℕ
  unfolding finish
  run_again = ph.run_correctness >>= λ res. finish res (lift (ok tt))

  -- `run`
  unfoldable pub run : Bool → Program ph.State Fatal ℕ
  unfolding run_fresh run_again
  run fresh = ph.prepare fresh >>= λ _. if fresh then run_fresh else run_again

  -- `os.Exit(run())`
  unfoldable pub exit_status : ph.State × Result Fatal ℕ → ℕ
  exit_status (st, ok code) = code
  exit_status (st, err e) = 1
