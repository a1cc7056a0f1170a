-- ===== src/Metrics/History.antt =====
-- What metrics.db is asked (app/database/metrics_db.py): pruning, the recent samples and the
-- downsampled history. A sample has a timestamp, compared as text; `cutoff` gives the ISO text of the
-- moment some hours ago. GROUP BY, the rounded averages and the extremes are SQLite's, parameters;
-- `zeros` is what stands for the figures where there are none.
use mathlib.Core.List.{reverse}
use palworld_server_service.Common.{
  ℕ, Bool, not, String, List, [], ◌++◌, map, length, take, keep_where, count_where, str_eq,
  if◌then◌else◌, ◌*◌,
}
use palworld_server_service.Common.Text.{Text, codes}
use palworld_server_service.Files.Atomic.{text_before}
use palworld_server_service.Metrics.Buffer.{Metrics, Row, stored}

-- What follows FROM: the hours, how much of a timestamp a bucket keeps, and what is put after it.
pub record Window : Type 0 where
  pub hours : ℕ
  pub kept : ℕ
  pub suffix : Text

unfoldable pub window_of : String → Window
window_of window =
    if str_eq window "1h"
    then record { hours = 1; kept = 16; suffix = codes ":00Z" }
    else if str_eq window "7d"
    then record { hours = 168; kept = 13; suffix = codes ":00:00Z" }
    else if str_eq window "30d"
    then record { hours = 720; kept = 10; suffix = codes "T00:00:00Z" }
    else record { hours = 24; kept = 15; suffix = codes "0:00Z" }

module _ (Sample : Type 0) (timestamp : Sample → Text) where
  -- timestamp >= ?
  abbrev pub is_since : Text → Sample → Bool
  is_since cutoff_str x = text_before cutoff_str (timestamp x)

  unfoldable pub prune_older_than : Bool → (ℕ → Text) → ℕ → Metrics Sample → ℕ × Metrics Sample
  prune_older_than works cutoff days s =
      let cutoff_str = cutoff (24 * days) in
      let is_old = λ (row : Row Sample). not (is_since cutoff_str row.sample) in
      if works
      then (
        count_where is_old s.rows,
        record s {
          rows = keep_where (λ (row : Row Sample). is_since cutoff_str row.sample) s.rows;
        },
      )
      else (0, s)

  unfoldable pub get_recent_snapshots : Bool → ℕ → Metrics Sample → List (Row Sample)
  get_recent_snapshots works limit s = if works then reverse (take limit (reverse s.rows)) else []

  pub record Group : Type 0 where
    pub bucket : Text
    pub members : List Sample

  unfoldable pub bucket_of : Window → Sample → Text
  bucket_of w x = take w.kept (timestamp x) ++ w.suffix

  module _ (Figures : Type 0) (figures : List Sample → Figures) where
    pub record MetricBucketRecord : Type 0 where
      pub bucket_timestamp : Text
      pub aggregates : Figures
      pub sample_count : ℕ

    abbrev pub bucket_record : Group → MetricBucketRecord
    bucket_record g = record {
      bucket_timestamp = g.bucket;
      aggregates = figures g.members;
      sample_count = length g.members;
    }

    unfoldable pub get_history :
        (List (Text × Sample) → List Group)
        → Bool
        → (ℕ → Text)
        → String
        → Metrics Sample
        → List MetricBucketRecord
    get_history group_by works cutoff window s =
        let w = window_of window in
        if works
        then map bucket_record (
            group_by (
              map (λ x. (bucket_of w x, x))
                (keep_where (is_since (cutoff w.hours)) (stored Sample s))))
        else []

    pub record Metric30DaySummary : Type 0 where
      pub total_samples : ℕ
      pub statistics : Figures

    unfoldable pub get_30_day_summary :
        Bool → Figures → (ℕ → Text) → Metrics Sample → Metric30DaySummary
    get_30_day_summary works zeros cutoff s =
        let since = keep_where (is_since (cutoff 720)) (stored Sample s) in
        if works
        then record { total_samples = length since; statistics = figures since }
        else record { total_samples = 0; statistics = zeros }
