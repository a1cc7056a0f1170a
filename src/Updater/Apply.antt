-- ===== src/Updater/Apply.antt =====
-- `is_update_in_progress` and `apply_update` (app/engine/updater.py). Times are in microseconds; the
-- lock file is its time of writing, and `running` the branches whose deployment was started and has
-- not ended. A deployment runs scripts/deploy.sh, which removes the same lock file.
use palworld_server_service.Common.{
  ℕ, ◌-◌, ltb, leb, ◌==◌, Bool, true, false, ◌&&◌, ◌||◌, not, Option, none, some, List, [], ◌∷◌,
  if◌then◌else◌,
}
use palworld_server_service.Common.Text.{Text, text_eq}
use palworld_server_service.Common.Outcome.{
  Outcome, ok, err, http, os_error, runtime_error, Action, pure, raise, ◌>>◌,
}

-- The characters of [a-zA-Z0-9_.-].
abbrev pub is_branch_code : ℕ → Bool
is_branch_code c =
    ((leb 97 c && leb c 122) || (leb 65 c && leb c 90))
    || ((leb 48 c && leb c 57) || (c == 95 || (c == 46 || c == 45)))

-- What may follow a first character: `$` also matches before a newline at the end.
abbrev pub branch_ends : Text → Bool
branch_ends [] = true
branch_ends (c ∷ t) =
    let rest = branch_ends t in (is_branch_code c && rest) || (c == 10 && text_eq t [])

unfoldable pub is_branch_name : Text → Bool
is_branch_name [] = false
is_branch_name (c ∷ t) = is_branch_code c && branch_ends t

-- The event loop that asyncio.get_event_loop finds in the thread that asks; in one that does not run,
-- the deployment is awaited, and may raise.
pub data ThreadLoop : Type 0 where
  no_loop : ThreadLoop
  running_loop : ThreadLoop
  idle_loop : Bool → ThreadLoop

pub record UpdateHost : Type 0 where
  pub now : ℕ
  pub stat_works : Bool
  pub unlink_works : Bool
  -- the directory of the lock file and the atomic write of it
  pub lock_works : Bool
  -- the injected command_runner, if there is one, and whether it returns
  pub command_runner : Option Bool
  pub script_is_file : Bool
  pub deploy_log_opens : Bool
  pub is_posix : Bool
  pub worker_loop : ThreadLoop
  pub popen_works : Bool

pub record Watcher : Type 0 where
  pub branch : Text
  pub lock_file : Option ℕ
  pub running : List Text

-- STALE_LOCK_TIMEOUT_SECONDS
abbrev pub stale_lock_timeout : ℕ
stale_lock_timeout = 1800000000

abbrev pub locked_since : UpdateHost → Option ℕ → Watcher → Bool × Watcher
locked_since h none w = (false, w)
locked_since h (some mtime) w =
    if not h.stat_works
    then (false, w)
    else if ltb stale_lock_timeout (h.now - mtime)
    then (false, if h.unlink_works then record w { lock_file = none } else w)
    else (true, w)

unfoldable pub is_update_in_progress : UpdateHost → Watcher → Bool × Watcher
is_update_in_progress h w = locked_since h w.lock_file w

abbrev pub dispatch : Text → Action Watcher (Unit {0})
dispatch branch w = (ok tt, record w { running = branch ∷ w.running })

-- The supervisor's deployment, which the except clause around it covers: an error is logged.
abbrev pub dispatch_on : ThreadLoop → Text → Action Watcher (Unit {0})
dispatch_on no_loop branch = pure tt
dispatch_on running_loop branch = dispatch branch
dispatch_on (idle_loop returns) branch = dispatch branch

unfoldable pub spawn_detached_deployer : UpdateHost → Text → Action Watcher (Unit {0})
spawn_detached_deployer h target_branch =
    if not h.deploy_log_opens
    then raise os_error
    else if h.is_posix
    then dispatch_on h.worker_loop target_branch
    else if h.popen_works
    then dispatch target_branch
    else raise os_error

abbrev pub release : UpdateHost → Action Watcher (Unit {0})
release h w = if h.unlink_works then (ok tt, record w { lock_file = none }) else (err os_error, w)

abbrev pub released_on_error :
    UpdateHost → Outcome (Unit {0}) × Watcher → Outcome (Unit {0}) × Watcher
released_on_error h (ok u, w) = (ok tt, w)
released_on_error h (err e, w) = (release h >> raise (http 500)) w

abbrev pub run_command : Text → Bool → Action Watcher (Unit {0})
run_command branch true = dispatch branch
run_command branch false = raise runtime_error

unfoldable pub start_deployment : UpdateHost → Text → Option Bool → Action Watcher (Unit {0})
start_deployment h branch (some returns) w = released_on_error h (run_command branch returns w)
start_deployment h branch none w =
    if not h.script_is_file
    then (release h >> raise (http 500)) w
    else released_on_error h (spawn_detached_deployer h branch w)

abbrev pub acquire : UpdateHost → Action Watcher (Unit {0})
acquire h w =
    if h.lock_works then (ok tt, record w { lock_file = some h.now }) else (err (http 500), w)

abbrev pub after_check : UpdateHost → Text → Bool × Watcher → Outcome (Unit {0}) × Watcher
after_check h branch (true, w) = (err (http 409), w)
after_check h branch (false, w) = (acquire h >> start_deployment h branch h.command_runner) w

abbrev pub target_branch : Option Text → Watcher → Text
target_branch none w = w.branch
target_branch (some []) w = w.branch
target_branch (some (c ∷ t)) w = c ∷ t

unfoldable pub apply_update : UpdateHost → Option Text → Action Watcher (Unit {0})
apply_update h branch w =
    if not (is_branch_name (target_branch branch w))
    then (err (http 400), w)
    else after_check h (target_branch branch w) (is_update_in_progress h w)

-- The end of a deployment: cleanup_on_exit, or the last step of main. The removal may fail, and does
-- not happen where the script is killed.
abbrev pub deployer_exits_from : Bool → List Text → Watcher → Watcher
deployer_exits_from removes [] w = w
deployer_exits_from removes (branch ∷ rest) w = record w {
  lock_file = if removes then none else w.lock_file;
  running = rest;
}

unfoldable pub deployer_exits : Bool → Watcher → Watcher
deployer_exits removes w = deployer_exits_from removes w.running w
