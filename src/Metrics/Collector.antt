-- ===== src/Metrics/Collector.antt =====
-- `metrics_collector_loop` (app/main.py): it fills the buffer, flushes it and prunes the table. A turn
-- that raises before its sample is taken changes nothing and is left out.
use palworld_server_service.Common.{ℕ, leb, Bool, ◌||◌, List, [], ◌∷◌, ◌++◌, length, if◌then◌else◌}
use palworld_server_service.Common.Text.{Text}
use palworld_server_service.Metrics.Buffer.{Metrics, flush_metrics_buffer}
use palworld_server_service.Metrics.History.{prune_older_than}

-- One turn: its sample, which intervals have passed, whether the database works at the flush and at
-- the pruning, and the ISO text of the moment so many hours ago.
pub record Turn (Sample : Type 0) : Type 0 where
  pub snapshot : Sample
  pub is_due : Bool
  pub works : Bool
  pub is_prune_due : Bool
  pub prune_works : Bool
  pub cutoff : ℕ → Text

module _ (Sample : Type 0) where
  -- The sample is appended, and flushed where the interval has passed or a thousand wait.
  unfoldable pub gather : Turn Sample → Metrics Sample → Metrics Sample
  gather t s =
      let appended : Metrics Sample = record s {
        metrics_buffer = s.metrics_buffer ++ t.snapshot ∷ [];
      } in
      if t.is_due || leb 1000 (length appended.metrics_buffer)
      then (flush_metrics_buffer Sample t.works [] appended).1
      else appended

  -- `days` is settings.metrics_retention_days.
  module _ (timestamp : Sample → Text) (days : ℕ) where
    unfoldable pub prune : Turn Sample → Metrics Sample → Metrics Sample
    prune t s =
        if t.is_prune_due
        then (prune_older_than Sample timestamp t.prune_works t.cutoff days s).1
        else s

    unfoldable pub collect : Turn Sample → Metrics Sample → Metrics Sample
    collect t s = prune t (gather t s)

    unfoldable pub collect_all : List (Turn Sample) → Metrics Sample → Metrics Sample
    collect_all [] s = s
    collect_all (t ∷ ts) s = collect_all ts (collect t s)
