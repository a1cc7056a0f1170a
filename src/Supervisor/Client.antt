-- ===== src/Supervisor/Client.antt =====
-- `SupervisorClient` (app/supervisor/client.py). How it writes values and a request as JSON is the
-- parameter `Writer`; the socket, with the server behind it, is an argument that gives a response or
-- none (a connection that fails, or closes), and the milliseconds until it comes.
use palworld_server_service.Common.{
  ltb, ℕ, String, Bool, Option, none, some, List, [], ◌∷◌, str_eq, if◌then◌else◌,
}
use palworld_server_service.Common.Text.{Text}
use palworld_server_service.Supervisor.Protocol.{
  Pydantic, Params, service_restart, service_status, service_reload, system_reboot, system_deploy,
}
use palworld_server_service.Supervisor.Server.{Result, Response, result, error, Commands}

pub record Writer (p : Pydantic) : Type 0 where
  pub of_str : String → p.Value
  pub of_int : ℕ → p.Value
  pub of_bool : Bool → p.Value
  pub model_dump_json : String → String → List (String × p.Value) → Text

-- What a method of the client returns or raises.
pub data Answer : Type 0 where
  returned : Result → Answer
  rpc_error : String → Answer
  client_error : Answer

abbrev pub Socket : Type 0
Socket = Text → Commands → (Option Response × ℕ) × Commands

abbrev pub answer_of : Option Response × Commands → Answer × Commands
answer_of (none, log) = (client_error, log)
answer_of (some (result id r), log) = (returned r, log)
answer_of (some (error id code), log) = (rpc_error code, log)

-- asyncio.wait_for on the response
abbrev pub wait_for : ℕ → Option Response × ℕ → Option Response
wait_for timeout (response, ms) = if ltb timeout ms then none else response

module _ (p : Pydantic) (w : Writer p) where
  -- The client's timeout is in milliseconds; `id` is the first twelve digits of a fresh uuid.
  unfoldable pub send_request :
      ℕ → Socket → String → String → List (String × p.Value) → Commands → Answer × Commands
  send_request timeout socket id method params log =
      let (arrival, log') = socket (w.model_dump_json id method params) log in
      answer_of (wait_for timeout arrival, log')

  abbrev pub reason_field : String → List (String × p.Value)
  reason_field reason = if str_eq reason "" then [] else ("reason", w.of_str reason) ∷ []

  -- The method and the parameters of restart_service, get_service_status, reload_systemd,
  -- schedule_reboot and trigger_deploy.
  unfoldable pub request_of : Params → String × List (String × p.Value)
  request_of (service_restart service timeout) = (
    "service.restart",
    ("service_name", w.of_str service) ∷ ("timeout_seconds", w.of_int timeout) ∷ [],
  )
  request_of (service_status service) = ("service.status", ("service_name", w.of_str service) ∷ [])
  request_of (service_reload daemon_reload) =
      ("service.reload", ("daemon_reload", w.of_bool daemon_reload) ∷ [])
  request_of (system_reboot delay reason) =
      ("system.reboot", ("delay_seconds", w.of_int delay) ∷ reason_field reason)
  request_of (system_deploy branch) = ("system.deploy", ("target_branch", w.of_str branch) ∷ [])

  unfoldable pub client_request : ℕ → Socket → String → Params → Commands → Answer × Commands
  client_request timeout socket id call log =
      let (method, params) = request_of call in send_request timeout socket id method params log
