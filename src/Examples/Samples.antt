-- ===== src/Examples/Samples.antt =====
-- The theorems about telemetry samples at one buffer; the samples are numbers or texts.
use palworld_server_service.Common.{
  keep_where, leb, ℕ, ◌≡◌, Bool, true, false, List, [], ◌∷◌, arith,
}
use palworld_server_service.Metrics.Buffer.{Metrics}
use palworld_server_service.Metrics.Collector.{Turn, collect_all}
use palworld_server_service.Metrics.Kept.{Spares, collect_all_keeps}
use palworld_server_service.Metrics.Flushed.{collected}
use palworld_server_service.Common.Text.{Text}
use palworld_server_service.Files.Atomic.{text_before}

abbrev waiting : List ℕ → Metrics ℕ
waiting samples = record { rows = []; next_id = 1; metrics_buffer = samples }

-- A turn that prunes the samples below 2.
abbrev turn : ℕ → Bool → Turn ℕ
turn sample works = record {
  snapshot = sample;
  is_due = true;
  works = works;
  is_prune_due = true;
  prune_works = works;
  cutoff = λ hours. 2 ∷ [];
}

abbrev dated : ℕ → Text
dated n = n ∷ []

abbrev recent : ℕ → Bool
recent n = leb 2 n

turn-Spares : (n : ℕ) (works : Bool) → Spares ℕ dated 30 recent (turn n works)
unfolding text_before
turn-Spares n works = λ x h. ground arith

collect_all_keeps_example :
    keep_where recent (
      collected ℕ (
        collect_all ℕ dated 30 (turn 2 false ∷ turn 3 true ∷ turn 4 false ∷ []) (waiting (1 ∷ []))))
    ≡ 2 ∷ 3 ∷ 4 ∷ []
collect_all_keeps_example =
    collect_all_keeps ℕ dated 30 recent (turn 2 false ∷ turn 3 true ∷ turn 4 false ∷ [])
      (waiting (1 ∷ [])) (turn-Spares 2 false, (turn-Spares 3 true, (turn-Spares 4 false, tt)))
      (omega arith)
