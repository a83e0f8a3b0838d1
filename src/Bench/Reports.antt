-- ===== src/Bench/Reports.antt =====
-- The CSV files of cmd/sprint4. `encoding/csv` is written out; floating-point numbers and their
-- `%.2f` and `%.0f` are a parameter.
pub mod Laws
use tessera_transparency.Base.{
  ℕ, suc, List, [], ◌∷◌, ◌++◌, map, Bytes, codes, Bool, true, false, ◌||◌, ◌&&◌, ◌==◌,
  if◌then◌else◌, bytes_eq,
}
use tessera_transparency.Text.Decimal
use tessera_transparency.Bench.Leaves.{Leaves}
use tessera_transparency.Bench.Correctness.{CorrResult}

pub record Floats : Type 1 where
  pub Float : Type 0
  -- `fmt.Sprintf("%.nf", v)`
  pub fixed : ℕ → Float → Bytes

abbrev has_special : Bytes → Bool
has_special [] = false
has_special (c ∷ s) = c == b',' || c == b'"' || c == b'\r' || c == b'\n' || has_special s

-- `fieldNeedsQuotes`, for ASCII: the field `\.` is quoted too.
needs_quotes : Bytes → Bool
needs_quotes [] = false
needs_quotes (c ∷ s) =
    bytes_eq (c ∷ s) (b'\\' ∷ b'.' ∷ [])
    || has_special (c ∷ s)
    || c == b' '
    || c == b'\t'
    || c == 11
    || c == 12

double_quotes : Bytes → Bytes
double_quotes [] = []
double_quotes (c ∷ s) =
    let rest = double_quotes s in if c == b'"' then b'"' ∷ b'"' ∷ rest else c ∷ rest

unfoldable pub csv_field : Bytes → Bytes
unfolding needs_quotes double_quotes
csv_field s = if needs_quotes s then b'"' ∷ (double_quotes s ++ b'"' ∷ []) else s

-- `w.Write(record)`
unfoldable pub csv_row : List Bytes → Bytes
unfolding csv_field
csv_row [] = b'\n' ∷ []
csv_row (f ∷ []) = csv_field f ++ b'\n' ∷ []
csv_row (f ∷ g ∷ fs) = csv_field f ++ b',' ∷ csv_row (g ∷ fs)

unfoldable pub csv_text : List (List Bytes) → Bytes
unfolding csv_row
csv_text [] = []
csv_text (r ∷ rs) = csv_row r ++ csv_text rs

module _ (fl : Floats) where
  -- `throughputResult`
  pub record ThroughputResult : Type 0 where
    pub label : Bytes
    pub target : ℕ
    pub duration : fl.Float
    pub confirmed : ℕ
    pub rate : fl.Float
    pub leaf_hashes : Leaves

  -- `latencyResult`
  pub record LatencyResult : Type 0 where
    pub concurrency : ℕ
    pub duration : fl.Float
    pub total_reqs : ℕ
    pub p50ms : fl.Float
    pub p99ms : fl.Float

  -- `writeThroughputCSV`
  unfoldable pub throughput_rows : List ThroughputResult → List (List Bytes)
  throughput_rows results =
      (codes "run"
        ∷ codes "target_rate"
        ∷ codes "duration_s"
        ∷ codes "entries_appended"
        ∷ codes "actual_rate"
        ∷ codes "backend"
        ∷ [])
      ∷ map
          (λ (r : ThroughputResult).
            r.label
            ∷ Decimal.format r.target
            ∷ fl.fixed 2 r.duration
            ∷ Decimal.format r.confirmed
            ∷ fl.fixed 2 r.rate
            ∷ codes "POSIX"
            ∷ [])
          results

  -- `writeStorageCSV`
  unfoldable pub storage_rows : ℕ → ℕ → fl.Float → List (List Bytes)
  storage_rows entries total_bytes bytes_per_entry =
      (codes "log_size_entries" ∷ codes "bytes_total" ∷ codes "bytes_per_entry" ∷ [])
      ∷ (codes "0" ∷ codes "0" ∷ codes "0" ∷ [])
      ∷ (Decimal.format entries ∷ Decimal.format total_bytes ∷ fl.fixed 0 bytes_per_entry ∷ [])
      ∷ []

  -- `writeLatencyCSV`
  unfoldable pub latency_rows : List LatencyResult → List (List Bytes)
  latency_rows results =
      (codes "concurrency"
        ∷ codes "duration_s"
        ∷ codes "total_requests"
        ∷ codes "p50_ms"
        ∷ codes "p99_ms"
        ∷ [])
      ∷ map
          (λ (r : LatencyResult).
            Decimal.format r.concurrency
            ∷ fl.fixed 2 r.duration
            ∷ Decimal.format r.total_reqs
            ∷ fl.fixed 2 r.p50ms
            ∷ fl.fixed 2 r.p99ms
            ∷ [])
          results

-- `writeCorrectnessCSV`
unfoldable pub correctness_rows : CorrResult → List (List Bytes)
correctness_rows r =
    (codes "test" ∷ codes "total" ∷ codes "passed" ∷ codes "failed" ∷ [])
    ∷ (codes "inclusion_proofs"
        ∷ Decimal.format r.inclusion_total
        ∷ Decimal.format r.inclusion_passed
        ∷ Decimal.format r.inclusion_failed
        ∷ [])
    ∷ (codes "consistency_proofs"
        ∷ Decimal.format r.consistency_total
        ∷ Decimal.format r.consistency_passed
        ∷ Decimal.format r.consistency_failed
        ∷ [])
    ∷ (codes "negative_tampered"
        ∷ Decimal.format r.negative_total
        ∷ Decimal.format r.negative_passed
        ∷ Decimal.format r.negative_failed
        ∷ [])
    ∷ []
