-- ===== src/Supervisor/Server.antt =====
-- The handlers of app/supervisor/handlers.py and one connection of `SupervisorServer`
-- (app/supervisor/server.py, app/supervisor/auth.py) on a POSIX host. Every command that a handler
-- starts is recorded with its arguments, the newest first.
use Prim.Native.String.{◌++◌ as append}
use palworld_server_service.Common.{
  ℕ, leb, ltb, ◌*◌, ◌/◌, ℤ, is_zero, String, Bool, true, false, ◌||◌, Option, none, some, List, [],
  ◌∷◌, length, ◌==◌, if◌then◌else◌,
}
use palworld_server_service.Common.Text.{Text}
use palworld_server_service.Supervisor.Protocol.{
  Pydantic, Params, service_restart, service_status, service_reload, system_reboot, system_deploy,
  Request, validate_request, validate_params,
}

-- How a command ends, its output decoded and stripped: it cannot be started, or it exits.
pub data Exit : Type 0 where
  not_started : Exit
  exited : (returncode : ℤ) (stdout stderr : String) → Exit

pub data Result : Type 0 where
  restarted : String → Result
  restart_timeout : String → Result
  restart_failed : String → ℤ → String → Result
  active_state : String → String → Result
  reloaded : Bool → Result
  scheduled : ℕ → String → Result
  dispatched : String → Result

pub data Response : Type 0 where
  result : String → Result → Response
  -- the id, and the code of the error
  error : Option String → String → Response

-- How the host prints a number, and after the commands so far, how the next one ends and how many
-- milliseconds it runs.
pub record Host : Type 0 where
  pub show : ℕ → String
  pub exit_of : List (List String) → List String → Exit
  pub runs_for : List (List String) → List String → ℕ

abbrev pub Commands : Type 0
Commands = List (List String)

module _ (h : Host) where
  -- A restart waits for its command so many milliseconds at most.
  abbrev restart_result : String → ℕ → ℕ → Exit → Option Result
  restart_result service limit ms not_started = none
  restart_result service limit ms (exited returncode stdout stderr) =
      if ltb limit ms
      then some (restart_timeout service)
      else if is_zero returncode
      then some (restarted service)
      else some (restart_failed service returncode stderr)

  -- The handlers that need their command started and nothing else of it.
  abbrev awaited : Result → Exit → Option Result
  awaited r not_started = none
  awaited r (exited returncode stdout stderr) = some r

  abbrev status_result : String → Exit → Option Result
  status_result service not_started = none
  status_result service (exited returncode stdout stderr) = some (active_state service stdout)

  -- max(1, delay_seconds // 60)
  abbrev pub minutes_of : ℕ → ℕ
  minutes_of delay_seconds = if leb 1 (delay_seconds / 60) then delay_seconds / 60 else 1

  abbrev pub shutdown : ℕ → String → List String
  shutdown delay_seconds reason =
      "/sbin/shutdown"
      ∷ "-r"
      ∷ (if ltb 0 delay_seconds then append "+" (h.show (minutes_of delay_seconds)) else "now")
      ∷ reason
      ∷ []

  -- METHOD_DISPATCH: the command, if any, and the result; `none` where the handler raises.
  unfoldable pub handle : Params → Commands → Option Result × Commands
  handle (service_restart service timeout) log =
      let command = "/bin/systemctl" ∷ "restart" ∷ service ∷ [] in
      (
        restart_result service (timeout * 1000) (h.runs_for log command) (h.exit_of log command),
        command ∷ log,
      )
  handle (service_status service) log =
      let command = "/bin/systemctl" ∷ "is-active" ∷ service ∷ [] in
      (status_result service (h.exit_of log command), command ∷ log)
  handle (service_reload daemon_reload) log =
      let command = "/bin/systemctl" ∷ "daemon-reload" ∷ [] in
      if daemon_reload
      then (awaited (reloaded true) (h.exit_of log command), command ∷ log)
      else (some (reloaded false), log)
  handle (system_reboot delay_seconds reason) log =
      let command = shutdown delay_seconds reason in
      (awaited (scheduled delay_seconds reason) (h.exit_of log command), command ∷ log)
  handle (system_deploy branch) log =
      let command = "/var/lib/palmanager/deploy-runner.sh" ∷ branch ∷ [] in
      (awaited (dispatched branch) (h.exit_of log command), command ∷ log)

  -- How many milliseconds a handler waits: for its command, a restart no longer than its timeout, and
  -- a deployment not at all.
  unfoldable pub busy_for : Params → Commands → ℕ
  busy_for (service_restart service timeout) log =
      let ms = h.runs_for log ("/bin/systemctl" ∷ "restart" ∷ service ∷ []) in
      if ltb (timeout * 1000) ms then timeout * 1000 else ms
  busy_for (service_status service) log =
      h.runs_for log ("/bin/systemctl" ∷ "is-active" ∷ service ∷ [])
  busy_for (service_reload daemon_reload) log =
      if daemon_reload then h.runs_for log ("/bin/systemctl" ∷ "daemon-reload" ∷ []) else 0
  busy_for (system_reboot delay_seconds reason) log = h.runs_for log (shutdown delay_seconds reason)
  busy_for (system_deploy branch) log = 0

  abbrev pub answer : String → Option Result → Response
  answer id none = error (some id) "-32603"
  answer id (some r) = result id r

  module _ (p : Pydantic) where
    abbrev pub dispatch : String → Option Params → Commands → Response × Commands
    dispatch id none log = (error (some id) "-32603", log)
    dispatch id (some params) log = let (r, log') = handle params log in (answer id r, log')

    abbrev pub respond_request : Option (Request p) → Commands → Response × Commands
    respond_request none log = (error none "-32600", log)
    respond_request (some r) log = dispatch r.id (validate_params p r.method r.params) log

    -- One line that readline has returned.
    unfoldable pub respond_line : Text → Commands → Response × Commands
    respond_line line log =
        if ltb 65536 (length line)
        then (error none "-32600", log)
        else respond_request (validate_request p line) log

    abbrev pub params_busy_for : Option Params → Commands → ℕ
    params_busy_for none log = 0
    params_busy_for (some params) log = busy_for params log

    abbrev pub request_busy_for : Option (Request p) → Commands → ℕ
    request_busy_for none log = 0
    request_busy_for (some r) log = params_busy_for (validate_params p r.method r.params) log

    -- How many milliseconds pass before the response to a line.
    unfoldable pub line_busy_for : Text → Commands → ℕ
    line_busy_for line log =
        if ltb 65536 (length line) then 0 else request_busy_for (validate_request p line) log

    -- The loop to the end of input, or to the line beyond the stream's limit for which readline
    -- raises: that closes the connection with no response.
    unfoldable pub respond_lines : List (Option Text) → Commands → List Response × Commands
    respond_lines [] log = ([], log)
    respond_lines (none ∷ lines) log = ([], log)
    respond_lines (some line ∷ lines) log =
        let (r, log') = respond_line line log in
        let (rs, log'') = respond_lines lines log' in (r ∷ rs, log'')

    -- validate_peer_credentials on the uid that the socket reports, `none` where it reports none:
    -- PermissionError refuses, OSError is passed over.
    unfoldable pub is_refused : ℕ → Option ℕ → Bool
    is_refused allowed_uid none = false
    is_refused allowed_uid (some uid) = if uid == allowed_uid || uid == 0 then false else true

    -- _handle_client
    unfoldable pub handle_client :
        ℕ → Option ℕ → List (Option Text) → Commands → List Response × Commands
    handle_client allowed_uid peer lines log =
        if is_refused allowed_uid peer
        then (error none "-32000" ∷ [], log)
        else respond_lines lines log
