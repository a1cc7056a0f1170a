-- ===== src/Engine/State.antt =====
-- The part of `PalEngine` that the reboot lifecycle reads and writes (app/engine/service.py): the
-- lifecycle state, the cancellation control, the staged settings and the files. What goes out to
-- players, Discord, the web clients and the supervisor is recorded in `sent`, the newest first.
use palworld_server_service.Common.{
  ℕ, ltb, ◌-◌, String, Bool, true, false, Option, none, some, List, [], ◌∷◌, map, str_eq,
  if◌then◌else◌,
}
use palworld_server_service.Common.Outcome.{ok, err, runtime_error, os_error, Action}

pub data Phase : Type 0 where
  idle : Phase
  countdown : Phase
  saving : Phase
  maintenance : Phase
  probing : Phase

abbrev pub in_countdown : Phase → Bool
in_countdown countdown = true
in_countdown _ = false

pub record Lifecycle : Type 0 where
  pub phase : Phase
  pub remaining_seconds : ℕ
  pub total_seconds : ℕ
  pub current_broadcast : String
  pub is_updating : Bool

abbrev pub idle_state : Lifecycle
idle_state = record {
  phase = idle;
  remaining_seconds = 0;
  total_seconds = 0;
  current_broadcast = "";
  is_updating = false;
}

-- How the supervisor's restart of the service ends for the caller: with the status success, with
-- another one, or with an exception.
pub data RestartAnswer : Type 0 where
  granted : RestartAnswer
  refused : RestartAnswer
  ipc_failed : RestartAnswer

pub data Note : Type 0 where
  -- send_broadcast: the text, and whether Discord gets it too
  broadcast : String → Bool → Note
  -- notify_reboot_countdown: the time, whether it updates, the version and the custom message
  countdown_embed : String → Bool → String → String → Note
  -- notify_reboot_cancelled, with the reason
  cancelled_embed : String → Note
  complete_embed : Note
  lifecycle_update : Lifecycle → Note
  save : Note
  -- a request to the supervisor to restart the service, with its end, and log.error about one
  restart : RestartAnswer → Note
  error_logged : Note

-- A path: what stands there, and whether the process may write and remove it.
pub record File : Type 0 where
  pub content : Option String
  pub is_writable : Bool

abbrev pub write_file : String → File → File
write_file text f = if f.is_writable then record f { content = some text } else f

abbrev pub remove_file : File → File
remove_file f = if f.is_writable then record f { content = none } else f

pub record Engine : Type 0 where
  pub lifecycle : Lifecycle
  -- _cancel_state
  pub is_cancelled : Bool
  pub reason : String
  -- None and "" are both falsy, so an empty text is never staged here.
  pub staged_ini : Option String
  -- The time of the lock file's last change, in microseconds.
  pub lock_file : Option ℕ
  pub update_flags : List File
  pub ini_file : File
  pub drop_ins : List File
  pub sent : List Note

-- What other tasks do while the sequence waits: an administrator cancels, settings are staged, or the
-- task itself is cancelled.
pub data Call : Type 0 where
  cancel : String → Call
  stage : String → Call
  stop : Call

-- The surroundings of one sequence: Python's decimal text of a number, the clock, failing file
-- calls, the calls of other tasks, and the readiness that each probe reads,
-- and how the supervisor answers.
pub record World : Type 0 where
  pub show : ℕ → String
  pub now_us : ℕ
  pub lock_inspection_fails : Bool
  pub lock_touch_fails : Bool
  pub lock_removal_fails : Bool
  pub calls_at_start : List Call
  -- at the tick with so many seconds remaining
  pub calls_at : ℕ → List Call
  pub calls_while_saving : List Call
  pub is_ready : ℕ → Bool
  pub restart_answer : RestartAnswer

abbrev pub send : Note → Engine → Engine
send n s = record s { sent = n ∷ s.sent }

-- broadcast_ws of the lifecycle state
abbrev pub publish : Engine → Engine
publish s = send (lifecycle_update s.lifecycle) s

abbrev pub enter : Phase → String → Engine → Engine
enter phase text s =
    publish
      (record s { lifecycle = record s.lifecycle { phase = phase; current_broadcast = text } })

-- cancel_countdown
unfoldable pub cancel_countdown : String → Engine → Bool × Engine
cancel_countdown reason s =
    if in_countdown s.lifecycle.phase
    then (true, record s { is_cancelled = true; reason = reason })
    else (false, s)

abbrev pub staged : String → Option String
staged text = if str_eq text "" then none else some text

unfoldable pub stage_settings : String → Engine → Engine
stage_settings serialized_ini s = record s { staged_ini = staged serialized_ini }

abbrev pub call : Call → Engine → Engine
call (cancel reason) s = (cancel_countdown reason s).1
call (stage serialized_ini) s = stage_settings serialized_ini s
call stop s = s

abbrev pub call_all : List Call → Engine → Engine
call_all [] s = s
call_all (c ∷ cs) s = call_all cs (call c s)

abbrev pub is_stop : Call → Bool
is_stop stop = true
is_stop _ = false

unfoldable pub set_update_flags : Engine → Engine
set_update_flags s = record s { update_flags = map (write_file "1\n") s.update_flags }

unfoldable pub clear_update_flags : Engine → Engine
clear_update_flags s = record s { update_flags = map remove_file s.update_flags }

abbrev pub touch_lock : World → Engine → Engine
touch_lock w s = record s { lock_file = some w.now_us }

-- Making the lock file's directory and touching the file.
abbrev pub claim_lock : World → Action Engine (Unit {0})
claim_lock w s = if w.lock_touch_fails then (err os_error, s) else (ok tt, touch_lock w s)

-- _check_and_acquire_lock: a stale file is removed and touched again, a fresh one only touched.
abbrev pub inspect_lock : World → Option ℕ → Action Engine (Unit {0})
inspect_lock w none s = claim_lock w s
inspect_lock w (some changed) s =
    if w.lock_inspection_fails
    then (err runtime_error, s)
    else if ltb 900000000 (w.now_us - changed)
    then claim_lock w (record s { lock_file = none })
    else claim_lock w s

unfoldable pub check_and_acquire_lock : World → Action Engine (Unit {0})
check_and_acquire_lock w s = inspect_lock w s.lock_file s

unfoldable pub release_reboot_lock : World → Engine → Engine
release_reboot_lock w s = record s {
  lock_file = if w.lock_removal_fails then s.lock_file else none;
  lifecycle = idle_state;
}

abbrev pub write_staged : Option String → Engine → Engine
write_staged none s = s
write_staged (some text) s = record s {
  ini_file = write_file text s.ini_file;
  drop_ins = map (write_file text) s.drop_ins;
  staged_ini = none;
}

unfoldable pub apply_staged_configuration : Engine → Engine
apply_staged_configuration s = write_staged s.staged_ini s
