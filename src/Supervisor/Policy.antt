-- ===== src/Supervisor/Policy.antt =====
-- What a connection to the supervisor can make the host do (app/supervisor).
use palworld_server_service.Common.{
  ℕ, suc, leb, ltb, String, ◌≡◌, refl, ap, true, false, ◌||◌, Option, none, some, List, [], ◌∷◌,
  All, arith, length, ◌==◌, if◌then◌else◌, Bool-cases, inl, inr,
}
use palworld_server_service.Common.Text.{Text, codes}
use palworld_server_service.Supervisor.Protocol.{
  Pydantic, Params, service_restart, service_status, service_reload, system_reboot, system_deploy,
  Request, validate_request, validate_params, service_allowed, branch_matches,
}
use palworld_server_service.Supervisor.Server.{
  Host, Commands, error, handle, shutdown, dispatch, respond_request, respond_line, respond_lines,
  is_refused, handle_client,
}
use palworld_server_service.Supervisor.Validity.{Holds, IsValid, validate_params-Holds}

-- The commands that the policy allows.
pub data Permitted (h : Host) : List String → Type 0 where
  restart :
      (service : String)
      → service_allowed service ≡ true
      → Permitted h ("/bin/systemctl" ∷ "restart" ∷ service ∷ [])
  status :
      (service : String)
      → service_allowed service ≡ true
      → Permitted h ("/bin/systemctl" ∷ "is-active" ∷ service ∷ [])
  reload : Permitted h ("/bin/systemctl" ∷ "daemon-reload" ∷ [])
  reboot :
      (delay_seconds : ℕ) (reason : String)
      → leb delay_seconds 3600 ≡ true
      → Permitted h (shutdown h delay_seconds reason)
  deploy :
      (branch : String)
      → branch_matches (codes branch) ≡ true
      → Permitted h ("/var/lib/palmanager/deploy-runner.sh" ∷ branch ∷ [])

-- How many lines are read before one is too long for the stream.
abbrev pub lines_read : List (Option Text) → ℕ
lines_read [] = 0
lines_read (none ∷ lines) = 0
lines_read (some line ∷ lines) = suc (lines_read lines)

module _ (h : Host) (p : Pydantic) where
  handle-Permitted :
      (params : Params) (log : Commands)
      → IsValid params
      → All (Permitted h) log
      → All (Permitted h) (handle h params log).1
  unfolding handle
  handle-Permitted (service_restart service timeout) log valid sofar =
      (restart service valid, sofar)
  handle-Permitted (service_status service) log valid sofar = (status service valid, sofar)
  handle-Permitted (service_reload true) log valid sofar = (reload, sofar)
  handle-Permitted (service_reload false) log valid sofar = sofar
  handle-Permitted (system_reboot delay_seconds reason) log valid sofar =
      (reboot delay_seconds reason valid, sofar)
  handle-Permitted (system_deploy branch) log valid sofar = (deploy branch valid, sofar)

  dispatch-Permitted :
      (id : String) (o : Option Params) (log : Commands)
      → Holds IsValid o
      → All (Permitted h) log
      → All (Permitted h) (dispatch h p id o log).1
  dispatch-Permitted id none log valid sofar = sofar
  dispatch-Permitted id (some params) log valid sofar = handle-Permitted params log valid sofar

  request-Permitted :
      (o : Option (Request p)) (log : Commands)
      → All (Permitted h) log
      → All (Permitted h) (respond_request h p o log).1
  request-Permitted none log sofar = sofar
  request-Permitted (some r) log sofar =
      dispatch-Permitted r.id (validate_params p r.method r.params) log
        (validate_params-Holds p r.method r.params) sofar

  line-Permitted :
      (line : Text) (log : Commands)
      → All (Permitted h) log
      → All (Permitted h) (respond_line h p line log).1
  unfolding respond_line
  line-Permitted line log sofar = elim (Bool-cases (ltb 65536 (length line))) [
    | inl e ↦ simp e sofar
    | inr e ↦ simp e (request-Permitted (validate_request p line) log sofar)
  ]

  lines-Permitted :
      (lines : List (Option Text)) (log : Commands)
      → All (Permitted h) log
      → All (Permitted h) (respond_lines h p lines log).1
  unfolding respond_lines
  lines-Permitted [] log sofar = sofar
  lines-Permitted (none ∷ lines) log sofar = sofar
  lines-Permitted (some line ∷ lines) log sofar =
      lines-Permitted lines _ (line-Permitted line log sofar)

  -- Whatever lines whichever peer sends, only commands of the policy are started, after none but
  -- such: systemctl on the three services, a daemon reload, a shutdown with a delay of an hour at
  -- most, and the deploy runner with a branch name that matches the pattern.
  pub handle_client-Permitted :
      (allowed_uid : ℕ) (peer : Option ℕ) (lines : List (Option Text)) (log : Commands)
      → All (Permitted h) log
      → All (Permitted h) (handle_client h p allowed_uid peer lines log).1
  unfolding handle_client
  handle_client-Permitted allowed_uid peer lines log sofar =
      elim (Bool-cases (is_refused h p allowed_uid peer)) [
        | inl e ↦ simp e sofar
        | inr e ↦ simp e (lines-Permitted lines log sofar)
      ]

  lines-length :
      (lines : List (Option Text)) (log : Commands)
      → length (respond_lines h p lines log).0 ≡ lines_read lines
  unfolding respond_lines
  lines-length [] log = refl
  lines-length (none ∷ lines) log = refl
  lines-length (some line ∷ lines) log = ap suc (lines-length lines _)

  -- A peer whose uid is known gets one refusal and starts nothing, unless it is root or the allowed
  -- user; those get one response for each line before the first that the stream does
  -- not hold.
  pub handle_client_by_uid :
      (allowed_uid uid : ℕ) (lines : List (Option Text)) (log : Commands)
      → let (responses, log') = handle_client h p allowed_uid (some uid) lines log in
        if uid == allowed_uid || uid == 0
        then length responses ≡ lines_read lines
        else ((responses ≡ error none "-32000" ∷ []) × (log' ≡ log))
  unfolding handle_client is_refused
  handle_client_by_uid allowed_uid uid lines log =
      elim (Bool-cases (uid == allowed_uid || uid == 0)) [
        | inl e ↦ simp e (lines-length lines log)
        | inr e ↦ simp e (refl, refl)
      ]

  -- Where the socket does not report its peer, the connection is served as the allowed user's is.
  pub unknown_peer_served :
      (allowed_uid : ℕ) (lines : List (Option Text)) (log : Commands)
      → handle_client h p allowed_uid none lines log
        ≡ handle_client h p allowed_uid (some allowed_uid) lines log
  unfolding handle_client is_refused
  unknown_peer_served allowed_uid lines log = ground (arith)
