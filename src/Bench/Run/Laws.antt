-- ===== src/Bench/Run/Laws.antt =====
-- What is on the disk when cmd/sprint4 has ended, and what its exit status says.
use mathlib.Core.Path.{subst}
use tessera_transparency.Base.{
  ◌<◌, lt→ltb, ℕ, ◌≡◌, refl, ◌≢◌, ap, sym, ◌∙◌, some, Bytes, Result, ok, err, Bool, true, false,
  ok-injective, arith, codes,
}
use tessera_transparency.Base.Programs.{Program, lift, continue_ok}
use tessera_transparency.Bench.Correctness.{CorrResult, exit_code}
use tessera_transparency.Bench.Correctness.Laws.{exit_code_sound}
use tessera_transparency.Bench.Reports.{Floats, csv_text, correctness_rows}
use tessera_transparency.Bench.Run.{
  Fatal, Phases, Measured, throughput_csv, storage_csv, latency_csv, correctness_csv, measure,
  write_measured, finish, run_fresh, per_entry, run_again, run, exit_status,
}
use tessera_transparency.Bench.Run.Files.{
  IsDisk, AreWritten, LatencyFile-moved, write_sound, write_measured_sound,
}

module _ (fl : Floats) (ph : Phases fl) (disk : IsDisk fl ph) where
  -- The last result of a run, and its file.
  pub record IsReported (code : ℕ) (before st : ph.State) : Type 0 where
    pub start : ph.State
    pub res : CorrResult
    pub checked : ph.run_correctness start ≡ (before, ok res)
    pub coded : code ≡ exit_code res
    pub correctness_file : disk.file st correctness_csv ≡ some (csv_text (correctness_rows res))

  finish_sound :
      (res : CorrResult) (deferred : Program ph.State Fatal (Unit {0})) (st st' : ph.State)
      (code : ℕ)
      → finish fl ph res deferred st ≡ (st', ok code)
      → (st1 : ph.State) × (deferred st ≡ (st1, ok tt))
        × (ph.write_file correctness_csv (csv_text (correctness_rows res)) st1 ≡ (st', ok tt))
        × (code ≡ exit_code res)
  unfolding finish
  finish_sound res deferred st st' code h =
      let (u, written, h1) = continue_ok (deferred st) _ h in
      let st1 = (deferred st).0 in
      let two = ph.write_file correctness_csv (csv_text (correctness_rows res)) st1 in
      let (v, last, h2) = continue_ok two _ h1 in
      (
        st1,
        written,
        subst (λ x. two ≡ (x, ok tt)) (ap (λ p. p.0) h2) last,
        sym (ok-injective (ap (λ p. p.1) h2)),
      )

  -- With `--fresh=false` a run that is not cut short writes correctness.csv alone: it holds the
  -- result of the suite, from which the exit code is taken, and every other file is as the suite has
  -- left it.
  pub run-again :
      (st st' : ph.State) (code : ℕ)
      → run fl ph false st ≡ (st', ok code)
      → (before : ph.State) × IsReported code before st'
        × ((name : Bytes) → name ≢ correctness_csv → disk.file st' name ≡ disk.file before name)
  unfolding run run_again
  run-again st st' code h =
      let (u, prepared, h1) = continue_ok (ph.prepare false st) _ h in
      let start = (ph.prepare false st).0 in
      let (res, checked, h2) = continue_ok (ph.run_correctness start) _ h1 in
      let before = (ph.run_correctness start).0 in
      let (st1, deferred, last, coded) = finish_sound res (lift (ok tt)) before st' code h2 in
      let same : before ≡ st1 = ap (λ p. p.0) deferred in
      (
        before,
        record {
          start = start;
          res = res;
          checked = checked;
          coded = coded;
          correctness_file = disk.written correctness_csv _ st1 st' last;
        },
        λ name other.
            disk.others correctness_csv _ name st1 st' last other
            ∙ ap (λ x. disk.file x name) (sym same),
      )

  -- What the first phases have measured: run A at 1000 entries per second, the bytes in its
  -- directory and their share for each entry, run B at 10000, and the latencies on the log of run A.
  pub record IsMeasured (start left : ph.State) (d : Measured fl ph) : Type 0 where
    pub st1 : ph.State
    pub st2 : ph.State
    pub run_a : ph.run_throughput (codes "A") 1000 start ≡ (st1, ok d.result_a)
    pub storage : d.storage_bytes ≡ ph.measure_dir_bytes st1
    pub average :
        0 < d.result_a.confirmed
        → d.bytes_per_entry ≡ ph.quotient d.storage_bytes d.result_a.confirmed
    pub no_average : d.result_a.confirmed ≡ 0 → d.bytes_per_entry ≡ ph.zero
    pub run_b : ph.run_throughput (codes "B") 10000 st1 ≡ (st2, ok d.result_b)
    pub latencies : ph.run_latency d.result_a st2 ≡ (left, ok d.lat_results)

  measure_sound :
      (st left : ph.State) (d : Measured fl ph)
      → measure fl ph st ≡ (left, ok d)
      → IsMeasured st left d
  unfolding measure per_entry
  measure_sound st left d h =
      let one = ph.run_throughput (codes "A") 1000 st in
      let (a, first, h1) = continue_ok one _ h in
      let two = ph.run_throughput (codes "B") 10000 one.0 in
      let (b, second, h2) = continue_ok two _ h1 in
      let three = ph.run_latency a two.0 in
      let (lat, third, h3) = continue_ok three _ h2 in
      let same = ok-injective (ap (λ p. p.1) h3) in
      subst (λ x. IsMeasured st left x) same
        (record {
          st1 = one.0;
          st2 = two.0;
          run_a = first;
          storage = refl;
          average = λ some. rw (lt→ltb 0 a.confirmed some);
          no_average = λ none. rw none;
          run_b = second;
          latencies = subst (λ y. three ≡ (y, ok lat)) (ap (λ p. p.0) h3) third;
        })

  pub run-fresh :
      (st st' : ph.State) (code : ℕ)
      → run fl ph true st ≡ (st', ok code)
      → (start left before : ph.State) × (d : Measured fl ph) × IsMeasured start left d
        × IsReported code before st'
        × AreWritten fl ph disk d before st'
  unfolding run run_fresh
  run-fresh st st' code h =
      let (u, prepared, h1) = continue_ok (ph.prepare true st) _ h in
      let start = (ph.prepare true st).0 in
      let (d, measured, h2) = continue_ok (measure fl ph start) _ h1 in
      let left = (measure fl ph start).0 in
      let (res, checked, h3) = continue_ok (ph.run_correctness left) _ h2 in
      let before = (ph.run_correctness left).0 in
      let (st1, deferred, last, coded) =
        finish_sound res (write_measured fl ph d) before st' code h3 in
      let w = write_measured_sound fl ph disk d before st1 deferred in
      let (c_file, kept) =
        write_sound fl ph disk correctness_csv (csv_text (correctness_rows res)) st1 st' last in
      (
        start,
        left,
        before,
        d,
        measure_sound start left d measured,
        record {
          start = left;
          res = res;
          checked = checked;
          coded = coded;
          correctness_file = c_file;
        },
        record {
          throughput_file = kept throughput_csv (ground arith) ∙ w.throughput_file;
          storage_file = kept storage_csv (ground arith) ∙ w.storage_file;
          latency_file =
              LatencyFile-moved fl ph disk d.lat_results before before st1 st' refl
                (kept latency_csv (ground arith)) w.latency_file;
        },
      )

  pub exit_status_sound :
      (r : ph.State × Result Fatal ℕ) → exit_status fl ph r ≡ 0 → r ≡ (r.0, ok 0)
  unfolding exit_status
  exit_status_sound (st, ok code) h = ap (λ n. (st, ok n)) h
  exit_status_sound (st, err e) h = absurd (omega arith)

  -- A result without failures is what correctness.csv holds.
  abbrev pub IsPassed : ph.State → Type 0
  IsPassed st =
      (res : CorrResult) × (disk.file st correctness_csv ≡ some (csv_text (correctness_rows res)))
      × (res.inclusion_failed ≡ 0)
      × (res.consistency_failed ≡ 0)
      × (res.negative_failed ≡ 0)

  IsReported-IsPassed : (before st : ph.State) → IsReported 0 before st → IsPassed st
  IsReported-IsPassed before st r =
      let (fi, fc, fn) = exit_code_sound r.res (sym r.coded) in
      (r.res, r.correctness_file, fi, fc, fn)

  -- The program exits with 0 only if correctness.csv has been written and holds a result with no
  -- failure, with and without `--fresh`, and wherever it might have been cut short.
  pub exit_status-IsPassed :
      (fresh : Bool) (st : ph.State)
      → exit_status fl ph (run fl ph fresh st) ≡ 0
      → IsPassed (run fl ph fresh st).0
  exit_status-IsPassed true st h =
      let r = run fl ph true st in
      let (start, left, before, d, measured, reported, written) =
        run-fresh st r.0 0 (exit_status_sound r h) in
      IsReported-IsPassed before r.0 reported
  exit_status-IsPassed false st h =
      let r = run fl ph false st in
      let (before, reported, kept) = run-again st r.0 0 (exit_status_sound r h) in
      IsReported-IsPassed before r.0 reported
