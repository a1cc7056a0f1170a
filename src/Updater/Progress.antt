-- ===== src/Updater/Progress.antt =====
-- `get_deployment_progress` (app/engine/updater.py): what the tail of the deployment log and the lock
-- file tell of a deployment. float() and the regular expression of a step line are parameters; times
-- are in seconds.
use palworld_server_service.Common.{
  ℕ, zero, suc, ◌+◌, ◌-◌, ◌==◌, Bool, false, ◌&&◌, ◌||◌, not, Option, none, some, List, [], ◌∷◌,
  ◌++◌, any_where, if◌then◌else◌,
}
use palworld_server_service.Common.Text.{Text, codes, text_eq, starts_with, strip}
use palworld_server_service.Updater.Steps.{
  StepStatus, contains_text, Steps, scan_lines, current_step_of, step_status, at_least, percent_of,
  all_steps, step_name_at, pending, completed, failed,
}

pub record PostUpdateSummary : Type 0 where
  pub has_failed : Bool
  pub summary : Text
  pub duration_seconds : ℕ
  pub acknowledged : Bool

pub record DeploymentProgress : Type 0 where
  pub operation : Text
  pub active : Bool
  pub current_step : ℕ
  pub step_name : Text
  pub percentage : ℕ
  pub elapsed_seconds : ℕ
  pub estimated_remaining_seconds : Option ℕ
  pub steps : List StepStatus
  pub log_tail : List Text
  pub last_update : Option PostUpdateSummary

abbrev pub default_step_names : List Text
default_step_names =
    codes "Pulling latest updates from origin"
    ∷ codes "Updating Python dependencies via uv"
    ∷ codes "Syncing application code & systemd units"
    ∷ codes "Enforcing POSIX ACLs & storage permissions"
    ∷ codes "Restarting palworld-manager.service"
    ∷ []

-- No deployment runs: the last one is reported until it is acknowledged.
abbrev pub reported : List Text → PostUpdateSummary → DeploymentProgress
reported log_lines u = record {
  operation = codes "portal_update";
  active = false;
  current_step = if u.has_failed then 1 else 5;
  step_name =
      if u.has_failed
      then codes "Deployment failed: " ++ u.summary
      else codes "Deployment completed successfully";
  percentage = if u.has_failed then 0 else 100;
  elapsed_seconds = u.duration_seconds;
  estimated_remaining_seconds = some 0;
  steps =
      if u.has_failed
      then failed ∷ pending ∷ pending ∷ pending ∷ pending ∷ []
      else all_steps (λ n. completed);
  log_tail = if u.has_failed then log_lines else [];
  last_update = some u;
}

abbrev pub idle_progress : List Text → Option PostUpdateSummary → DeploymentProgress
idle_progress log_lines last_update = record {
  operation = codes "none";
  active = false;
  current_step = 0;
  step_name = [];
  percentage = 0;
  elapsed_seconds = 0;
  estimated_remaining_seconds = none;
  steps = all_steps (λ n. pending);
  log_tail = log_lines;
  last_update = last_update;
}

unfoldable pub inactive : List Text → Option PostUpdateSummary → DeploymentProgress
inactive log_lines none = idle_progress log_lines none
inactive log_lines (some u) =
    if u.acknowledged then idle_progress log_lines (some u) else reported log_lines u

-- A deployment runs: its steps, or where it was aborted.
unfoldable pub in_progress :
    Text → ℕ → List Text → Option PostUpdateSummary → Steps → DeploymentProgress
in_progress operation elapsed log_lines last_update s =
    let current = current_step_of s in
    let aborted = any_where (contains_text (codes "Deployment aborted with error")) log_lines in
    record {
      operation = operation;
      active = not aborted;
      current_step = current;
      step_name =
          if aborted
          then codes "Deployment aborted at step " ++ ((48 + current) ∷ [])
          else step_name_at current default_step_names;
      percentage = percent_of s;
      elapsed_seconds = elapsed;
      estimated_remaining_seconds = if aborted then some 0 else some (at_least 5 (45 - elapsed));
      steps = all_steps (λ n. if aborted && n == current then failed else step_status s n);
      log_tail = log_lines;
      last_update = last_update;
    }

-- The lock file's lines, read until a number cannot be.
pub record LockMeta : Type 0 where
  pub started_at : Option ℕ
  pub timestamp : Option ℕ
  pub operation : Text

abbrev pub is_operation : Text → Bool
is_operation v =
    (text_eq v (codes "portal_update") || text_eq v (codes "tls_certificate"))
    || (text_eq v (codes "server_restart") || text_eq v (codes "none"))

abbrev pub after_equals : Text → Text
after_equals [] = []
after_equals (c ∷ t) = let rest = after_equals t in if c == 61 then t else rest

abbrev pub with_number : (ℕ → LockMeta) → Option ℕ → Option LockMeta
with_number f none = none
with_number f (some n) = some (f n)

-- One line: nothing where float() raises.
abbrev pub read_line : (Text → Option ℕ) → Text → LockMeta → Option LockMeta
read_line to_float line l =
    let value = strip (after_equals line) in
    if starts_with (codes "started_at=") line
    then with_number (λ n. record l { started_at = some n }) (to_float value)
    else if starts_with (codes "timestamp=") line
    then with_number (λ n. record l { timestamp = some n }) (to_float value)
    else if starts_with (codes "operation=") line && is_operation value
    then some (record l { operation = value })
    else some l

abbrev pub read_rest : LockMeta → (LockMeta → LockMeta) → Option LockMeta → LockMeta
read_rest l more none = l
read_rest l more (some l') = more l'

unfoldable pub read_lock : (Text → Option ℕ) → List Text → LockMeta → LockMeta
read_lock to_float [] l = l
read_lock to_float (line ∷ lines) l =
    read_rest l (read_lock to_float lines) (read_line to_float line l)

abbrev pub no_meta : LockMeta
no_meta = record { started_at = none; timestamp = none; operation = codes "portal_update" }

abbrev pub started_from : Option ℕ → Option ℕ → ℕ → ℕ
started_from (some t) fallback now = t
started_from none (some (suc t)) now = suc t
started_from none (some zero) now = now
started_from none none now = now

unfoldable pub get_deployment_progress :
    (Text → Option ℕ)
    → (Text → Option ℕ)
    → Bool
    → ℕ
    → List Text
    → List Text
    → Option PostUpdateSummary
    → DeploymentProgress
get_deployment_progress step_of to_float is_active now lock_lines log_lines last_update =
    let lock = read_lock to_float lock_lines no_meta in
    if not is_active
    then inactive log_lines last_update
    else in_progress lock.operation (now - started_from lock.started_at lock.timestamp now)
        log_lines last_update (scan_lines step_of log_lines (record { started = []; done = [] }))
