-- ===== src/Supervisor/EndToEnd.antt =====
-- A call of the client, through the server's connection, to the host (app/supervisor/client.py,
-- app/supervisor/server.py).
use palworld_server_service.Common.{
  ℕ, leb, ltb, String, ◌≡◌, refl, Bool, true, false, ◌&&◌, Option, none, some, List, [], ◌∷◌,
  length, str_eq, if◌then◌else◌, Bool-cases, inl, inr, any_where,
}
use palworld_server_service.Common.Text.{codes}
use palworld_server_service.Supervisor.Protocol.{
  Pydantic, Params, service_restart, service_status, service_reload, system_reboot, system_deploy,
  service_allowed, branch_matches, validate_request, validate_params, is_text, allowed_methods,
}
use palworld_server_service.Supervisor.Server.{
  Host, Response, Commands, handle, answer, respond_line, handle_client, is_refused, respond_lines,
  busy_for, line_busy_for,
}
use palworld_server_service.Supervisor.Client.{
  Writer, Socket, client_error, answer_of, request_of, send_request, client_request,
}

-- What the models of app/supervisor/protocol.py accept.
abbrev pub IsAccepted : Params → Type 0
IsAccepted (service_restart service timeout) =
    (service_allowed service ≡ true) × (leb 5 timeout && leb timeout 120 ≡ true)
IsAccepted (service_status service) = service_allowed service ≡ true
IsAccepted (service_reload daemon_reload) = Unit {0}
IsAccepted (system_reboot delay reason) =
    (leb delay 3600 ≡ true) × (leb (length (codes reason)) 256 ≡ true)
IsAccepted (system_deploy branch) =
    leb (length (codes branch)) 128 && branch_matches (codes branch) ≡ true

-- An empty reason is not sent, and the server puts its own in its place.
abbrev pub received : Params → Params
received (system_reboot delay reason) =
    system_reboot delay
      (if str_eq reason "" then "Operator-initiated reboot via web management plane" else reason)
received (service_restart service timeout) = service_restart service timeout
received (service_status service) = service_status service
received (service_reload daemon_reload) = service_reload daemon_reload
received (system_deploy branch) = system_deploy branch

-- Values are read back as they were written.
pub record Reads (p : Pydantic) (w : Writer p) : Type 0 where
  pub str : (s : String) → p.to_str (w.of_str s) ≡ some s
  pub int : (n : ℕ) → p.to_int (w.of_int n) ≡ some n
  pub bool : (b : Bool) → p.to_bool (w.of_bool b) ≡ some b

-- The server behind the client's socket: the first response on a connection with one line.
abbrev pub first_response : List Response × Commands → Option Response × Commands
first_response ([], log) = (none, log)
first_response (r ∷ rs, log) = (some r, log)

-- A response comes when its handler is done; the socket itself takes no time.
abbrev pub served_by : Host → Pydantic → ℕ → Option ℕ → Socket
served_by h p allowed_uid peer line log =
    let (response, log') =
      first_response (handle_client h p allowed_uid peer (some line ∷ []) log) in
    ((response, if is_refused h p allowed_uid peer then 0 else line_busy_for h p line log), log')

module _ (h : Host) (p : Pydantic) (w : Writer p) (reads : Reads p w) where
  validate-request_of :
      (call : Params)
      → IsAccepted call
      → validate_params p (request_of p w call).0 (request_of p w call).1 ≡ some (received call)
  unfolding validate_params request_of
  validate-request_of (service_restart service timeout) (allowed, bounds) =
      simp (reads.str, reads.int, allowed, bounds)
  validate-request_of (service_status service) allowed = simp (reads.str, allowed)
  validate-request_of (service_reload daemon_reload) _ = simp reads.bool
  validate-request_of (system_reboot delay reason) (bound, short) =
      elim (Bool-cases (str_eq reason "")) [
        | inl empty ↦ simp (reads.int, bound, empty)
        | inr given ↦ simp (reads.int, reads.str, bound, short, given)
      ]
  validate-request_of (system_deploy branch) valid = simp (reads.str, valid)

  method-allowed :
      (call : Params) → any_where (is_text (request_of p w call).0) allowed_methods ≡ true
  unfolding request_of
  method-allowed (service_restart service timeout) = refl
  method-allowed (service_status service) = refl
  method-allowed (service_reload daemon_reload) = refl
  method-allowed (system_reboot delay reason) = refl
  method-allowed (system_deploy branch) = refl

  -- A call that the models accept, whose id has at most 64 characters and whose line fits the stream,
  -- comes through a peer that is not refused to the handler that it is meant for, with its arguments,
  -- an empty reason replaced by the default. Where the handler waits no longer than the client's
  -- timeout, the client returns what it gives, or raises its error; else the client raises, with the
  -- same command started. The request is read as it was written, and so are values.
  pub client_request-handle :
      (timeout allowed_uid : ℕ) (peer : Option ℕ) (id : String) (call : Params) (log : Commands)
      → IsAccepted call
      → is_refused h p allowed_uid peer ≡ false
      → leb (length (codes id)) 64 ≡ true
      → ltb 65536 (length (w.model_dump_json id (request_of p w call).0 (request_of p w call).1))
        ≡ false
      → p.read_json (w.model_dump_json id (request_of p w call).0 (request_of p w call).1)
        ≡ some (id, request_of p w call)
      → let (given, log') = handle h (received call) log in
        client_request p w timeout (served_by h p allowed_uid peer) id call log ≡ (
          if ltb timeout (busy_for h (received call) log)
          then (client_error, log')
          else answer_of (some (answer h id given), log'))
  unfolding client_request send_request handle_client respond_lines respond_line validate_request
      line_busy_for
  client_request-handle timeout allowed_uid peer id call log accepted welcome short_id short read =
      let facts = validate-request_of call accepted in
      elim (Bool-cases (ltb timeout (busy_for h (received call) log))) [
        | inl late ↦ simp (welcome, short, read, short_id, method-allowed call, facts, late)
        | inr soon ↦ simp (welcome, short, read, short_id, method-allowed call, facts, soon)
      ]
