-- ===== src/Supervisor/Protocol.antt =====
-- Requests and parameters of app/supervisor/protocol.py. Reading JSON and pydantic's coercion of
-- values are the parameter `Pydantic`; the constraints that the models declare are written out.
use palworld_server_service.Common.{
  ℕ, zero, suc, leb, String, Bool, true, false, ◌&&◌, ◌||◌, Option, none, some, List, [], ◌∷◌,
  length, ◌==◌, str_eq, if◌then◌else◌, any_where,
}
use palworld_server_service.Common.Text.{Text, codes}

abbrev pub is_text : String → String → Bool
is_text wanted s = str_eq s wanted

abbrev pub allowed_services : List String
allowed_services =
    "palworld.service" ∷ "palworld-manager.service" ∷ "palworld-dedicated.service" ∷ []

unfoldable pub service_allowed : String → Bool
service_allowed name = any_where (is_text name) allowed_services

abbrev pub allowed_methods : List String
allowed_methods =
    "service.restart" ∷ "service.status" ∷ "service.reload" ∷ "system.reboot" ∷ "system.deploy" ∷ []

abbrev pub is_alphanumeric : ℕ → Bool
is_alphanumeric c = (leb 97 c && leb c 122) || ((leb 65 c && leb c 90) || (leb 48 c && leb c 57))

-- [a-zA-Z0-9._/\-]
abbrev pub is_branch_char : ℕ → Bool
is_branch_char c = is_alphanumeric c || (c == b'.' || (c == b'_' || (c == b'/' || c == b'-')))

-- Up to n characters of the class, then the end: `$` also stands before a newline that ends the text.
abbrev pub branch_rest : ℕ → Text → Bool
branch_rest n [] = true
branch_rest zero (c ∷ t) = c == 10 && leb (length t) 0
branch_rest (suc n) (c ∷ t) =
    let rest = branch_rest n t in if is_branch_char c then rest else (c == 10 && leb (length t) 0)

-- BRANCH_NAME_PATTERN.match
unfoldable pub branch_matches : Text → Bool
branch_matches [] = false
branch_matches (c ∷ t) = is_alphanumeric c && branch_rest 127 t

pub record Pydantic : Type 1 where
  pub Value : Type 0
  -- Coercion to str, to int and to bool; `to_int` is `none` for a negative number too, which every
  -- model refuses.
  pub to_str : Value → Option String
  pub to_int : Value → Option ℕ
  pub to_bool : Value → Option Bool
  -- A line of JSON as the id, the method and the params of an envelope whose version is 2.0.
  pub read_json : Text → Option (String × (String × List (String × Value)))

pub data Params : Type 0 where
  service_restart : String → ℕ → Params
  service_status : String → Params
  service_reload : Bool → Params
  system_reboot : ℕ → String → Params
  system_deploy : String → Params

module _ (p : Pydantic) where
  pub record Request : Type 0 where
    pub id : String
    pub method : String
    pub params : List (String × p.Value)

  abbrev pub check_envelope : Option (String × (String × List (String × p.Value))) → Option Request
  check_envelope none = none
  check_envelope (some (id, (method, params))) =
      if leb (length (codes id)) 64 && any_where (is_text method) allowed_methods
      then some (record { id = id; method = method; params = params })
      else none

  -- JSONRPCRequest.model_validate_json
  unfoldable pub validate_request : Text → Option Request
  validate_request line = check_envelope (p.read_json line)

  abbrev pub lookup : String → List (String × p.Value) → Option p.Value
  lookup key [] = none
  lookup key ((k, v) ∷ fields) = if str_eq k key then some v else lookup key fields

  -- A field with a default, and the constraint that its model declares.
  abbrev pub field {ℓ} :
      {A : Type ℓ} → (p.Value → Option A) → Option A → (A → Bool) → Option p.Value → Option A
  field coerce default valid none = default
  field coerce default valid (some v) = elim (coerce v) [
    | none ↦ none
    | some a ↦ if valid a then some a else none
  ]

  abbrev pub str_field :
      String → Option String → (String → Bool) → List (String × p.Value) → Option String
  str_field key default valid fields = field p.to_str default valid (lookup key fields)

  abbrev pub restart_of : Option String → Option ℕ → Option Params
  restart_of (some service) (some timeout) = some (service_restart service timeout)
  restart_of _ _ = none

  abbrev pub reboot_of : Option ℕ → Option String → Option Params
  reboot_of (some delay) (some reason) = some (system_reboot delay reason)
  reboot_of _ _ = none

  abbrev pub status_of : Option String → Option Params
  status_of none = none
  status_of (some service) = some (service_status service)

  abbrev pub reload_of : Option Bool → Option Params
  reload_of none = none
  reload_of (some daemon_reload) = some (service_reload daemon_reload)

  abbrev pub deploy_of : Option String → Option Params
  deploy_of none = none
  deploy_of (some branch) = some (system_deploy branch)

  -- PARAM_MODELS[method](**params); `none` where validation fails.
  unfoldable pub validate_params : String → List (String × p.Value) → Option Params
  validate_params method fields =
      if str_eq method "service.restart"
      then restart_of (str_field "service_name" none service_allowed fields)
          (field p.to_int (some 30) (λ n. leb 5 n && leb n 120) (lookup "timeout_seconds" fields))
      else if str_eq method "service.status"
      then status_of (str_field "service_name" none service_allowed fields)
      else if str_eq method "service.reload"
      then reload_of (field p.to_bool (some true) (λ b. true) (lookup "daemon_reload" fields))
      else if str_eq method "system.reboot"
      then reboot_of (field p.to_int (some 0) (λ n. leb n 3600) (lookup "delay_seconds" fields)) (
          str_field "reason" (some "Operator-initiated reboot via web management plane")
            (λ s. leb (length (codes s)) 256) fields)
      else if str_eq method "system.deploy"
      then deploy_of (
          str_field "target_branch" (some "main")
            (λ s. leb (length (codes s)) 128 && branch_matches (codes s)) fields)
      else none
