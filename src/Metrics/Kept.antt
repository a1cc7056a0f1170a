-- ===== src/Metrics/Kept.antt =====
-- Which samples reach metrics.db (app/routers/deps.py, app/main.py).
use mathlib.Core.List.{append_assoc, append-nil}
use palworld_server_service.Common.{
  All, ◌*◌, ◌&&◌, not, keep_where, ℕ, zero, suc, ◌+◌, ◌≤◌, leb, ◌≡◌, refl, sym, ap, ◌∙◌, Bool, true,
  false, ◌||◌, List, [], ◌∷◌, ◌++◌, map, arith, length, take, length-append, Bool-cases, inl, inr,
}
use palworld_server_service.Common.Text.{Text}
use palworld_server_service.Metrics.Buffer.{
  Metrics, Row, stored, record_snapshots_batch, flush_batch, flush_metrics_buffer,
}
use palworld_server_service.Metrics.Collector.{Turn, gather, prune, collect, collect_all}
use palworld_server_service.Metrics.History.{is_since, prune_older_than}
use palworld_server_service.Metrics.Flushed.{
  collected, flush_batch-bounded, flush_batch-length, flush_keeps,
}

module _ (Sample : Type 0) where
  keep-append :
      (P : Sample → Bool) (xs ys : List Sample)
      → keep_where P (xs ++ ys) ≡ keep_where P xs ++ keep_where P ys
  keep-append P [] ys = refl
  keep-append P (x ∷ xs) ys = ground (arith, keep-append P xs ys)

  abbrev appended : Turn Sample → Metrics Sample → Metrics Sample
  appended t s = record s { metrics_buffer = s.metrics_buffer ++ t.snapshot ∷ [] }

  gather-length :
      (t : Turn Sample) (s : Metrics Sample)
      → length (gather Sample t s).metrics_buffer ≤ suc (length s.metrics_buffer)
  unfolding gather flush_metrics_buffer
  gather-length t s =
      let waiting = s.metrics_buffer ++ t.snapshot ∷ [] in
      elim (Bool-cases (t.is_due || leb 1000 (length waiting))) [
        | inl e ↦ simp e (
            omega (
              arith,
              flush_batch-length Sample t.works waiting (appended t s),
              length-append s.metrics_buffer (t.snapshot ∷ []),
            ))
        | inr e ↦ simp e (omega (arith, length-append s.metrics_buffer (t.snapshot ∷ [])))
      ]

  gather-bounded :
      (t : Turn Sample) (s : Metrics Sample) → length (gather Sample t s).metrics_buffer ≤ 1000
  unfolding gather flush_metrics_buffer
  gather-bounded t s =
      let waiting = s.metrics_buffer ++ t.snapshot ∷ [] in
      elim (Bool-cases (t.is_due || leb 1000 (length waiting))) [
        | inl e ↦ simp e (flush_batch-bounded Sample t.works waiting (appended t s))
        | inr e ↦ simp e (below (leb 1000 (length waiting)) refl e)
      ]
    where
      below :
          (b : Bool)
          → leb 1000 (length (s.metrics_buffer ++ t.snapshot ∷ [])) ≡ b
          → (t.is_due || b) ≡ false
          → length (s.metrics_buffer ++ t.snapshot ∷ []) ≤ 1000
      below true f e = absurd (ground arith)
      below false f e = ground arith

  gather-collected :
      (t : Turn Sample) (s : Metrics Sample)
      → suc (length s.metrics_buffer) ≤ 1000
      → collected Sample (gather Sample t s) ≡ collected Sample s ++ t.snapshot ∷ []
  unfolding gather
  gather-collected t s h =
      let waiting = s.metrics_buffer ++ t.snapshot ∷ [] in
      elim (Bool-cases (t.is_due || leb 1000 (length waiting))) [
        | inl e ↦ simp e (
            flush_keeps Sample t.works [] (appended t s)
              (omega (arith, length-append s.metrics_buffer (t.snapshot ∷ [])))
            ∙ append-nil (collected Sample (appended t s))
            ∙ sym (append_assoc (stored Sample s) s.metrics_buffer (t.snapshot ∷ [])))
        | inr e ↦ simp e (sym (append_assoc (stored Sample s) s.metrics_buffer (t.snapshot ∷ [])))
      ]

  module _ (timestamp : Sample → Text) (days : ℕ) where
    prune-buffer :
        (t : Turn Sample) (s : Metrics Sample)
        → (prune Sample timestamp days t s).metrics_buffer ≡ s.metrics_buffer
    unfolding prune prune_older_than
    prune-buffer t s = elim (Bool-cases t.is_prune_due) [
      | inl e ↦ elim (Bool-cases t.prune_works) [
        | inl f ↦ simp (e, f) refl
        | inr f ↦ simp (e, f) refl
      ]
      | inr e ↦ simp e refl
    ]

    -- A sample that the turn's pruning removes from the table, if it is there.
    abbrev pub is_pruned : Turn Sample → Sample → Bool
    is_pruned t x = t.is_prune_due && not (is_since Sample timestamp (t.cutoff (24 * days)) x)

    module _ (P : Sample → Bool) where
      -- The samples of P are none that the turn prunes.
      abbrev pub Spares : Turn Sample → Type 0
      Spares t = (x : Sample) → P x ≡ true → is_pruned t x ≡ false

      keep-pruned :
          (t : Turn Sample) (rows : List (Row Sample))
          → t.is_prune_due ≡ true
          → Spares t
          → keep_where P (
              map
                (λ (row : Row Sample). row.sample)
                (keep_where
                  (λ (row : Row Sample).
                    is_since Sample timestamp (t.cutoff (24 * days)) row.sample)
                  rows))
            ≡ keep_where P (map (λ (row : Row Sample). row.sample) rows)
      keep-pruned t [] due spares = refl
      keep-pruned t (row ∷ rows) due spares =
          let rest = keep-pruned t rows due spares in
          elim (Bool-cases (is_since Sample timestamp (t.cutoff (24 * days)) row.sample)) [
            | inl e ↦ ground (arith, rest)
            | inr e ↦ ground (arith, rest, spares row.sample)
          ]

      prune-collected :
          (t : Turn Sample) (s : Metrics Sample)
          → Spares t
          → keep_where P (collected Sample (prune Sample timestamp days t s))
            ≡ keep_where P (collected Sample s)
      unfolding prune prune_older_than
      prune-collected t s spares = elim (Bool-cases t.is_prune_due) [
        | inl e ↦ elim (Bool-cases t.prune_works) [
          | inl f ↦
              simp (e, f)
                (keep-append P _ s.metrics_buffer
                  ∙ ap (λ l. l ++ keep_where P s.metrics_buffer) (keep-pruned t s.rows e spares)
                  ∙ sym (keep-append P (stored Sample s) s.metrics_buffer))
          | inr f ↦ simp (e, f) refl
        ]
        | inr e ↦ simp e refl
      ]

      -- However the database fails, of the samples of P, none of which a turn's pruning removes, the
      -- collector loses none and keeps their order, while the samples that wait and those that come
      -- are a thousand at most.
      pub collect_all_keeps :
          (ts : List (Turn Sample)) (s : Metrics Sample)
          → All Spares ts
          → length s.metrics_buffer + length ts ≤ 1000
          → keep_where P (collected Sample (collect_all Sample timestamp days ts s))
            ≡ keep_where P (collected Sample s ++ map (λ (t : Turn Sample). t.snapshot) ts)
      unfolding collect_all collect
      collect_all_keeps [] s spares h = ap (keep_where P) (sym (append-nil (collected Sample s)))
      collect_all_keeps (t ∷ ts) s (spared, spares) h =
          let snapshots = map (λ (t : Turn Sample). t.snapshot) ts in
          let gathered = gather Sample t s in
          let kept = collect Sample timestamp days t s in
          collect_all_keeps ts kept spares
            (rw (prune-buffer t gathered) (omega (arith, gather-length t s)))
          ∙ keep-append P (collected Sample kept) snapshots
          ∙ ap (λ l. l ++ keep_where P snapshots)
              (prune-collected t gathered spared
                ∙ ap (keep_where P) (gather-collected t s (omega arith)))
          ∙ sym (keep-append P (collected Sample s ++ t.snapshot ∷ []) snapshots)
          ∙ ap (keep_where P) (append_assoc (collected Sample s) (t.snapshot ∷ []) snapshots)

    -- Where at most a thousand samples wait, at most a thousand wait after any turns of the
    -- collector.
    pub collect_all_bounded :
        (ts : List (Turn Sample)) (s : Metrics Sample)
        → length s.metrics_buffer ≤ 1000
        → length (collect_all Sample timestamp days ts s).metrics_buffer ≤ 1000
    unfolding collect_all collect
    collect_all_bounded [] s h = h
    collect_all_bounded (t ∷ ts) s h =
        collect_all_bounded ts (collect Sample timestamp days t s)
          (rw (prune-buffer t (gather Sample t s)) (gather-bounded t s))

  take-prefix : (n : ℕ) (xs ys : List Sample) → length xs ≡ n → take n (xs ++ ys) ++ [] ≡ xs
  take-prefix zero [] ys h = refl
  take-prefix zero (x ∷ xs) ys h = absurd (omega arith)
  take-prefix (suc n) [] ys h = absurd (omega arith)
  take-prefix (suc n) (x ∷ xs) ys h = ap (λ t. x ∷ t) (take-prefix n xs ys (omega arith))

  failed :
      (batch : List Sample) (s : Metrics Sample)
      → 1 ≤ length batch
      → (flush_batch Sample false [] batch s).1.metrics_buffer ≡ take 1000 batch ++ []
  unfolding record_snapshots_batch
  failed [] s h = absurd (omega arith)
  failed (x ∷ xs) s h = refl

  gather_loses :
      (t : Turn Sample) (s : Metrics Sample)
      → length s.metrics_buffer ≡ 1000
      → t.works ≡ false
      → (gather Sample t s).metrics_buffer ≡ s.metrics_buffer
  unfolding gather flush_metrics_buffer
  gather_loses t s full broken =
      let waiting = s.metrics_buffer ++ t.snapshot ∷ [] in
      let many : length waiting ≡ 1001 =
        omega (arith, length-append s.metrics_buffer (t.snapshot ∷ [])) in
      let flushes : (t.is_due || leb 1000 (length waiting)) ≡ true = ground (arith, many) in
      simp (flushes, broken)
        (failed waiting (appended t s) (omega (arith, many))
          ∙ take-prefix 1000 s.metrics_buffer (t.snapshot ∷ []) full)

  module _ (timestamp : Sample → Text) (days : ℕ) where
    -- While a thousand samples wait and the database fails, a new sample is lost: the buffer stays as
    -- it was.
    pub full_buffer_loses :
        (t : Turn Sample) (s : Metrics Sample)
        → length s.metrics_buffer ≡ 1000
        → t.works ≡ false
        → (collect Sample timestamp days t s).metrics_buffer ≡ s.metrics_buffer
    unfolding collect
    full_buffer_loses t s full broken =
        prune-buffer timestamp days t (gather Sample t s) ∙ gather_loses t s full broken
