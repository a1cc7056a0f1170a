-- ===== src/Metrics/Flushed.antt =====
-- What a flush of the buffer keeps (app/routers/deps.py).
use mathlib.Core.List.{append_assoc, append-nil}
use palworld_server_service.Common.{
  ℕ, zero, suc, ◌≤◌, ◌≡◌, refl, sym, ap, ◌∙◌, Bool, true, false, List, [], ◌∷◌, ◌++◌, map, arith,
  length, take, length-take,
}
use palworld_server_service.Metrics.Buffer.{
  Metrics, Row, stored, number_from, record_snapshots_batch, flush_batch, flush_metrics_buffer,
}

take-all : {A : Type 0} (n : ℕ) (xs : List A) → length xs ≤ n → take n xs ≡ xs
take-all zero [] h = refl
take-all zero (x ∷ xs) h = absurd (omega arith)
take-all (suc n) [] h = refl
take-all (suc n) (x ∷ xs) h = ap (λ t. x ∷ t) (take-all n xs (omega arith))

put_back-le : {A : Type 0} (n : ℕ) (xs : List A) → length (take n xs ++ []) ≤ length xs
put_back-le n xs = rw (append-nil (take n xs)) (omega (arith, length-take n xs))

put_back-bounded : {A : Type 0} (n : ℕ) (xs : List A) → length (take n xs ++ []) ≤ n
put_back-bounded n xs = rw (append-nil (take n xs)) (omega (arith, length-take n xs))

module _ (Sample : Type 0) where
  samples-number_from :
      (i : ℕ) (xs : List Sample)
      → map (λ (row : Row Sample). row.sample) (number_from Sample i xs) ≡ xs
  samples-number_from i [] = refl
  samples-number_from i (x ∷ xs) = ap (λ t. x ∷ t) (samples-number_from (suc i) xs)

  samples-append :
      (rows more : List (Row Sample))
      → map (λ (row : Row Sample). row.sample) (rows ++ more)
        ≡ map (λ (row : Row Sample). row.sample) rows ++ map (λ (row : Row Sample). row.sample) more
  samples-append [] more = refl
  samples-append (r ∷ rows) more = ap (λ t. r.sample ∷ t) (samples-append rows more)

  -- Everything that was collected: what the table holds, then the buffer.
  abbrev pub collected : Metrics Sample → List Sample
  collected s = stored Sample s ++ s.metrics_buffer

  flush_batch-collected :
      (works : Bool) (fresh batch : List Sample) (s : Metrics Sample)
      → length batch ≤ 1000
      → collected (flush_batch Sample works fresh batch s).1 ≡ stored Sample s ++ (batch ++ fresh)
  unfolding record_snapshots_batch
  flush_batch-collected works fresh [] s h = refl
  flush_batch-collected true fresh (x ∷ xs) s h =
      ap (λ t. t ++ fresh)
        (samples-append s.rows _
          ∙ ap (λ t. stored Sample s ++ t) (samples-number_from s.next_id (x ∷ xs)))
      ∙ append_assoc (stored Sample s) (x ∷ xs) fresh
  flush_batch-collected false fresh (x ∷ xs) s h =
      ap (λ t. stored Sample s ++ (t ++ fresh)) (take-all 1000 (x ∷ xs) h)

  -- A flush loses nothing and keeps the order, whether the database works or not and whatever is
  -- appended meanwhile, as long as at most a thousand samples wait.
  pub flush_keeps :
      (works : Bool) (fresh : List Sample) (s : Metrics Sample)
      → length s.metrics_buffer ≤ 1000
      → collected (flush_metrics_buffer Sample works fresh s).1 ≡ collected s ++ fresh
  unfolding flush_metrics_buffer
  flush_keeps works fresh s h =
      flush_batch-collected works fresh s.metrics_buffer s h
      ∙ sym (append_assoc (stored Sample s) s.metrics_buffer fresh)

  pub flush_batch-length :
      (works : Bool) (batch : List Sample) (s : Metrics Sample)
      → length (flush_batch Sample works [] batch s).1.metrics_buffer ≤ length batch
  unfolding record_snapshots_batch
  flush_batch-length works [] s = omega arith
  flush_batch-length true (x ∷ xs) s = omega arith
  flush_batch-length false (x ∷ xs) s = put_back-le 1000 (x ∷ xs)

  pub flush_batch-bounded :
      (works : Bool) (batch : List Sample) (s : Metrics Sample)
      → length (flush_batch Sample works [] batch s).1.metrics_buffer ≤ 1000
  unfolding record_snapshots_batch
  flush_batch-bounded works [] s = omega arith
  flush_batch-bounded true (x ∷ xs) s = omega arith
  flush_batch-bounded false (x ∷ xs) s = put_back-bounded 1000 (x ∷ xs)
