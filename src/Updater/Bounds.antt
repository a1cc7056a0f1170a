-- ===== src/Updater/Bounds.antt =====
-- Bounds of what `get_deployment_progress` (app/engine/updater.py) reports.
use palworld_server_service.Common.{
  ℕ, ◌+◌, ◌*◌, ◌≤◌, ltb, leb, ◌==◌, ◌≡◌, refl, true, false, ◌||◌, Option, List, [], arith, length,
  if◌then◌else◌, Bool-cases, inl, inr,
}
use palworld_server_service.Common.Text.{Text}
use palworld_server_service.Updater.Steps.{
  Steps, member, is_first, moves_to, running_step, max_of, current_step_of, percent_of, at_least,
  at_most, is_running, step_status, scan_lines,
}
use palworld_server_service.Updater.Progress.{
  DeploymentProgress, PostUpdateSummary, in_progress, get_deployment_progress,
}

moves_to-bounds :
    (s : Steps) (n current : ℕ)
    → (1 ≤ n) × (n ≤ 5)
    → (1 ≤ current) × (current ≤ 5)
    → (1 ≤ moves_to s n current) × (moves_to s n current ≤ 5)
moves_to-bounds s n current hn hc = elim (Bool-cases (member n s.done)) [
  | inl finished ↦ simp finished hc
  | inr unfinished ↦ elim (Bool-cases (member n s.started || is_first s n)) [
    | inl started ↦ simp (unfinished, started) hn
    | inr waits ↦ simp (unfinished, waits) hc
  ]
]

within : (n : ℕ) → leb 1 n ≡ true → leb n 5 ≡ true → (1 ≤ n) × (n ≤ 5)
within n low high = (ground arith, ground arith)

running_step-bounds : (s : Steps) → (1 ≤ running_step s) × (running_step s ≤ 5)
unfolding running_step
running_step-bounds s = moves_to-bounds s 5 _ (within 5 refl refl) (
    moves_to-bounds s 4 _ (within 4 refl refl) (
      moves_to-bounds s 3 _ (within 3 refl refl) (
        moves_to-bounds s 2 _ (within 2 refl refl)
          (moves_to-bounds s 1 1 (within 1 refl refl) (within 1 refl refl)))))

current_step_of-bounds : (s : Steps) → (1 ≤ current_step_of s) × (current_step_of s ≤ 5)
unfolding current_step_of
current_step_of-bounds s = elim (Bool-cases (leb (length s.done) 0)) [
  | inl nothing ↦ simp nothing (running_step-bounds s)
  | inr something ↦ elim (Bool-cases (ltb (max_of s.done) 5)) [
    | inl before ↦ simp (something, before) (omega arith, ground (arith, before))
    | inr last ↦ simp (something, last) (within 5 refl refl)
  ]
]

clamped :
    (n : ℕ)
    → (5 ≤ at_most 95 (at_least 5 n))
      × ((at_most 95 (at_least 5 n) ≤ 100) × ((at_most 95 (at_least 5 n) == 100) ≡ false))
clamped n = (ground arith, (ground arith, ground arith))

percent_of-bounds :
    (s : Steps)
    → (5 ≤ percent_of s) × ((percent_of s ≤ 100) × ((percent_of s == 100) ≡ (length s.done == 5)))
unfolding percent_of
percent_of-bounds s = elim (Bool-cases (length s.done == 5)) [
  | inl all ↦ simp all (omega arith, (omega arith, refl))
  | inr some_left ↦ simp some_left (
      clamped
        (length s.done * 20 + (if is_running (step_status s (current_step_of s)) then 10 else 0)))
]

module _ (step_of to_float : Text → Option ℕ) (now : ℕ) (lock_lines log_lines : List Text)
    (last_update : Option PostUpdateSummary) where
  abbrev pub progress : DeploymentProgress
  progress = get_deployment_progress step_of to_float true now lock_lines log_lines last_update

  -- The steps that the lines say are completed.
  abbrev pub completed_steps : List ℕ
  completed_steps = (scan_lines step_of log_lines (record { started = []; done = [] })).done

  -- While a deployment runs, its current step is one of the five, the percentage is between 5 and
  -- 100, and it is 100 exactly when the tail of the log shows five completed steps.
  pub progress_bounds :
      ((1 ≤ progress.current_step) × (progress.current_step ≤ 5))
      × ((5 ≤ progress.percentage)
          × ((progress.percentage ≤ 100)
              × ((progress.percentage == 100) ≡ (length completed_steps == 5))))
  unfolding get_deployment_progress in_progress
  progress_bounds =
      let s = scan_lines step_of log_lines (record { started = []; done = [] }) in
      (current_step_of-bounds s, percent_of-bounds s)
