-- ===== src/Updater/Steps.antt =====
-- The steps that the tail of a deployment log shows (`get_deployment_progress` of
-- app/engine/updater.py). A set of step numbers is a list; the regular expression of a step line is a
-- parameter.
use palworld_server_service.Common.{
  ℕ, zero, suc, ◌+◌, ◌*◌, ltb, leb, ◌==◌, Bool, true, false, ◌&&◌, ◌||◌, not, Option, none, some,
  List, [], ◌∷◌, length, any_where, if◌then◌else◌,
}
use palworld_server_service.Common.Text.{Text, codes, starts_with}

pub data StepStatus : Type 0 where
  pending : StepStatus
  running : StepStatus
  completed : StepStatus
  failed : StepStatus

-- `needle in line`
unfoldable pub contains_text : Text → Text → Bool
contains_text needle [] = starts_with needle []
contains_text needle (c ∷ line) = starts_with needle (c ∷ line) || contains_text needle line

abbrev pub member : ℕ → List ℕ → Bool
member n = any_where (λ k. k == n)

abbrev pub add_to : ℕ → List ℕ → List ℕ
add_to n set = if member n set then set else n ∷ set

unfoldable pub max_of : List ℕ → ℕ
max_of [] = 0
max_of (n ∷ set) = let rest = max_of set in if ltb rest n then n else rest

pub record Steps : Type 0 where
  pub started : List ℕ
  pub done : List ℕ

abbrev pub start_step : Option ℕ → Steps → Steps
start_step none s = s
start_step (some n) s = record s { started = add_to n s.started }

-- An OK counts for the step of its line, else for the highest step that was started.
abbrev pub finish_step : Option ℕ → Steps → Steps
finish_step (some n) s = record s { done = add_to n s.done }
finish_step none s =
    if leb (length s.started) 0 then s else record s { done = add_to (max_of s.started) s.done }

module _ (step_of : Text → Option ℕ) where
  abbrev pub scan_line : Text → Steps → Steps
  scan_line line s =
      let s' = start_step (step_of line) s in
      if contains_text (codes "[ OK ]") line then finish_step (step_of line) s' else s'

  unfoldable pub scan_lines : List Text → Steps → Steps
  scan_lines [] s = s
  scan_lines (line ∷ lines) s = scan_lines lines (scan_line line s)

abbrev pub is_first : Steps → ℕ → Bool
is_first s n = n == 1 && leb (length s.started) 0

abbrev pub status_of : Steps → ℕ → StepStatus
status_of s n =
    if member n s.done
    then completed
    else if member n s.started
    then running
    else if is_first s n
    then running
    else pending

-- The loop `for s in range(1, 6)`, as far as it moves the current step.
abbrev pub moves_to : Steps → ℕ → ℕ → ℕ
moves_to s n current =
    if member n s.done then current else if member n s.started || is_first s n then n else current

unfoldable pub running_step : Steps → ℕ
running_step s = moves_to s 5 (moves_to s 4 (moves_to s 3 (moves_to s 2 (moves_to s 1 1))))

unfoldable pub current_step_of : Steps → ℕ
current_step_of s =
    if leb (length s.done) 0
    then running_step s
    else if ltb (max_of s.done) 5
    then suc (max_of s.done)
    else 5

-- After the last completed step, the next one that waits is shown as running.
abbrev pub shown : Steps → ℕ → StepStatus → StepStatus
shown s n pending =
    if (not (leb (length s.done) 0) && ltb (max_of s.done) 5) && n == suc (max_of s.done)
    then running
    else pending
shown s n status = status

abbrev pub step_status : Steps → ℕ → StepStatus
step_status s n = shown s n (status_of s n)

abbrev pub is_running : StepStatus → Bool
is_running running = true
is_running _ = false

abbrev pub at_least : ℕ → ℕ → ℕ
at_least low n = if ltb n low then low else n

abbrev pub at_most : ℕ → ℕ → ℕ
at_most high n = if ltb high n then high else n

unfoldable pub percent_of : Steps → ℕ
percent_of s =
    if length s.done == 5
    then 100
    else at_most 95 (
        at_least 5
          (length s.done * 20 + (if is_running (step_status s (current_step_of s)) then 10 else 0)))

abbrev pub all_steps : (ℕ → StepStatus) → List StepStatus
all_steps f = f 1 ∷ f 2 ∷ f 3 ∷ f 4 ∷ f 5 ∷ []

abbrev pub step_name_at : ℕ → List Text → Text
step_name_at n [] = []
step_name_at zero (name ∷ names) = []
step_name_at (suc zero) (name ∷ names) = name
step_name_at (suc (suc n)) (name ∷ names) = step_name_at (suc n) names
