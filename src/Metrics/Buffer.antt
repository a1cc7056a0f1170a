-- ===== src/Metrics/Buffer.antt =====
-- The buffer of samples (app/routers/deps.py) and the table that it is written to
-- (app/database/metrics_db.py). A sample is any type. Rows stand in the order of their keys.
use palworld_server_service.Common.{
  ℕ, suc, Bool, List, [], ◌∷◌, ◌++◌, map, length, take, if◌then◌else◌,
}
use palworld_server_service.Common.Outcome.{Outcome, ok, err, database_error, Action}

module _ (Sample : Type 0) where
  pub record Row : Type 0 where
    pub id : ℕ
    pub sample : Sample

  pub record Metrics : Type 0 where
    pub rows : List Row
    pub next_id : ℕ
    pub metrics_buffer : List Sample

  abbrev pub stored : Metrics → List Sample
  stored s = map (λ row. row.sample) s.rows

  abbrev pub number_from : ℕ → List Sample → List Row
  number_from i [] = []
  number_from i (x ∷ xs) = record { id = i; sample = x } ∷ number_from (suc i) xs

  abbrev pub after_rows : ℕ → List Sample → ℕ
  after_rows i [] = i
  after_rows i (x ∷ xs) = after_rows (suc i) xs

  unfoldable pub record_snapshot : Bool → Sample → Action Metrics ℕ
  record_snapshot works x s =
      if works
      then (
        ok s.next_id,
        record s {
          rows = s.rows ++ record { id = s.next_id; sample = x } ∷ [];
          next_id = suc s.next_id;
        },
      )
      else (err database_error, s)

  -- executemany in one transaction, which a database error rolls back.
  unfoldable pub record_snapshots_batch : Bool → List Sample → Action Metrics ℕ
  record_snapshots_batch works [] s = (ok 0, s)
  record_snapshots_batch works (x ∷ xs) s =
      if works
      then (
        ok (length (x ∷ xs)),
        record s {
          rows = s.rows ++ number_from s.next_id (x ∷ xs);
          next_id = after_rows s.next_id (x ∷ xs);
        },
      )
      else (err database_error, s)

  -- `fresh` is what is appended while the batch is written in its thread.
  abbrev pub finish_flush : List Sample → List Sample → Outcome ℕ × Metrics → ℕ × Metrics
  finish_flush batch fresh (ok inserted, s) = (inserted, record s { metrics_buffer = fresh })
  finish_flush batch fresh (err e, s) = (0, record s { metrics_buffer = take 1000 batch ++ fresh })

  abbrev pub flush_batch : Bool → List Sample → List Sample → Metrics → ℕ × Metrics
  flush_batch works fresh [] s = (0, record s { metrics_buffer = fresh })
  flush_batch works fresh (x ∷ xs) s =
      finish_flush (x ∷ xs) fresh (record_snapshots_batch works (x ∷ xs) s)

  unfoldable pub flush_metrics_buffer : Bool → List Sample → Metrics → ℕ × Metrics
  flush_metrics_buffer works fresh s = flush_batch works fresh s.metrics_buffer s
