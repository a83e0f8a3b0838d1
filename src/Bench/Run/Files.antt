-- ===== src/Bench/Run/Files.antt =====
-- The files that `run` of cmd/sprint4 writes, on a disk that keeps what is written.
use tessera_transparency.Base.{
  ◌≡◌, refl, ◌≢◌, ap, sym, ◌∙◌, List, [], ◌∷◌, some, Option, Bytes, Result, ok, arith,
}
use tessera_transparency.Base.Programs.{continue_ok}
use tessera_transparency.Bench.Reports.{
  Floats, LatencyResult, csv_text, throughput_rows, storage_rows, latency_rows,
}
use tessera_transparency.Bench.Run.{
  Fatal, Phases, Measured, throughput_csv, storage_csv, latency_csv, write_latency, write_measured,
}

-- A file that was written holds the text, and the other files are as they were.
pub record IsDisk (fl : Floats) (ph : Phases fl) : Type 0 where
  pub file : ph.State → Bytes → Option Bytes
  pub written :
      (name text : Bytes) (st st' : ph.State)
      → ph.write_file name text st ≡ (st', ok tt)
      → file st' name ≡ some text
  pub others :
      (name text other : Bytes) (st st' : ph.State)
      → ph.write_file name text st ≡ (st', ok tt)
      → other ≢ name
      → file st' other ≡ file st other

module _ (fl : Floats) (ph : Phases fl) (disk : IsDisk fl ph) where
  -- latency.csv, which is not written where there is nothing to report.
  abbrev pub LatencyFile : List (LatencyResult fl) → ph.State → ph.State → Type 0
  LatencyFile [] before st = disk.file st latency_csv ≡ disk.file before latency_csv
  LatencyFile (r ∷ rs) before st =
      disk.file st latency_csv ≡ some (csv_text (latency_rows fl (r ∷ rs)))

  -- The files of the first phases.
  pub record AreWritten (d : Measured fl ph) (before st : ph.State) : Type 0 where
    pub throughput_file :
        disk.file st throughput_csv
        ≡ some (csv_text (throughput_rows fl (d.result_a ∷ d.result_b ∷ [])))
    pub storage_file :
        disk.file st storage_csv
        ≡ some (csv_text (storage_rows fl d.result_a.confirmed d.storage_bytes d.bytes_per_entry))
    pub latency_file : LatencyFile d.lat_results before st

  pub write_sound :
      (name text : Bytes) (st st' : ph.State)
      → ph.write_file name text st ≡ (st', ok tt)
      → (disk.file st' name ≡ some text)
        × ((other : Bytes) → other ≢ name → disk.file st' other ≡ disk.file st other)
  write_sound name text st st' h =
      (disk.written name text st st' h, λ other ne. disk.others name text other st st' h ne)

  pub write_latency_sound :
      (rs : List (LatencyResult fl)) (st st' : ph.State)
      → write_latency fl ph rs st ≡ (st', ok tt)
      → LatencyFile rs st st'
        × ((other : Bytes) → other ≢ latency_csv → disk.file st' other ≡ disk.file st other)
  unfolding write_latency
  write_latency_sound [] st st' h =
      let same : st' ≡ st = sym (ap (λ p. p.0) h) in
      (ap (λ x. disk.file x latency_csv) same, λ other ne. ap (λ x. disk.file x other) same)
  write_latency_sound (r ∷ rs) st st' h =
      write_sound latency_csv (csv_text (latency_rows fl (r ∷ rs))) st st' h

  pub LatencyFile-moved :
      (rs : List (LatencyResult fl)) (a b c d : ph.State)
      → disk.file b latency_csv ≡ disk.file a latency_csv
      → disk.file d latency_csv ≡ disk.file c latency_csv
      → LatencyFile rs b c
      → LatencyFile rs a d
  LatencyFile-moved [] a b c d before after h = after ∙ h ∙ before
  LatencyFile-moved (r ∷ rs) a b c d before after h = after ∙ h

  -- A step that gives nothing, and ends.
  unit_step :
      (r : ph.State × Result Fatal (Unit {0})) (u : Unit {0}) → r ≡ (r.0, ok u) → r ≡ (r.0, ok tt)
  unit_step r tt h = h

  pub write_measured_sound :
      (d : Measured fl ph) (st st' : ph.State)
      → write_measured fl ph d st ≡ (st', ok tt)
      → AreWritten d st st'
  unfolding write_measured
  write_measured_sound d st st' h =
      let t_text = csv_text (throughput_rows fl (d.result_a ∷ d.result_b ∷ [])) in
      let s_text =
        csv_text (storage_rows fl d.result_a.confirmed d.storage_bytes d.bytes_per_entry) in
      let one = ph.write_file throughput_csv t_text st in
      let (u, first, h1) = continue_ok one _ h in
      let two = ph.write_file storage_csv s_text one.0 in
      let (v, second, h2) = continue_ok two _ h1 in
      let (t_file, kept1) = write_sound throughput_csv t_text st one.0 (unit_step one u first) in
      let (s_file, kept2) = write_sound storage_csv s_text one.0 two.0 (unit_step two v second) in
      let (l_file, kept3) = write_latency_sound d.lat_results two.0 st' h2 in
      record {
        throughput_file =
            kept3 throughput_csv (ground arith) ∙ kept2 throughput_csv (ground arith) ∙ t_file;
        storage_file = kept3 storage_csv (ground arith) ∙ s_file;
        latency_file =
            LatencyFile-moved d.lat_results st two.0 st' st'
              (kept2 latency_csv (ground arith) ∙ kept1 latency_csv (ground arith)) refl l_file;
      }
