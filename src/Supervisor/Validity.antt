-- ===== src/Supervisor/Validity.antt =====
-- What validation establishes of a request's parameters (app/supervisor/protocol.py).
use palworld_server_service.Common.{
  ℕ, leb, String, ◌≡◌, refl, Bool, true, false, ◌&&◌, Option, none, some, List, arith, length,
  str_eq, if◌then◌else◌,
}
use palworld_server_service.Common.Text.{codes}
use palworld_server_service.Supervisor.Protocol.{
  Pydantic, Params, service_restart, service_status, service_reload, system_reboot, system_deploy,
  validate_params, service_allowed, branch_matches, field, lookup, restart_of, reboot_of, status_of,
  reload_of, deploy_of,
}

-- What validation establishes of parameters.
abbrev pub IsValid : Params → Type 0
IsValid (service_restart service timeout) = service_allowed service ≡ true
IsValid (service_status service) = service_allowed service ≡ true
IsValid (service_reload daemon_reload) = Unit {0}
IsValid (system_reboot delay_seconds reason) = leb delay_seconds 3600 ≡ true
IsValid (system_deploy branch) = branch_matches (codes branch) ≡ true

-- What holds of the value, where there is one.
abbrev pub Holds {ℓ κ} : {A : Type ℓ} → (A → Type κ) → Option A → Type κ
Holds P none = Unit
Holds P (some a) = P a

module _ (p : Pydantic) where
  field-Holds :
      {A : Type 0} (coerce : p.Value → Option A) (default : Option A) (valid : A → Bool)
      → (o : Option p.Value) → Holds (λ a. valid a ≡ true) default
      → Holds (λ a. valid a ≡ true) (field p coerce default valid o)
  field-Holds coerce default valid none safe = safe
  field-Holds coerce default valid (some v) safe = coerced (coerce v)
    where
      checked :
          (b : Bool) (a : _)
          → valid a ≡ b
          → Holds (λ a. valid a ≡ true) (if b then some a else none)
      checked true a h = h
      checked false a h = tt

      coerced :
          (c : Option _)
          → Holds
              (λ a. valid a ≡ true)
              (elim c [ none ↦ none | some a ↦ if valid a then some a else none ])
      coerced none = tt
      coerced (some a) = checked (valid a) a refl

  restart_of-Holds :
      (service : Option String) (timeout : Option ℕ)
      → Holds (λ s. service_allowed s ≡ true) service
      → Holds IsValid (restart_of p service timeout)
  restart_of-Holds none timeout safe = tt
  restart_of-Holds (some s) none safe = tt
  restart_of-Holds (some s) (some n) safe = safe

  status_of-Holds :
      (service : Option String)
      → Holds (λ s. service_allowed s ≡ true) service
      → Holds IsValid (status_of p service)
  status_of-Holds none safe = tt
  status_of-Holds (some s) safe = safe

  reload_of-Holds : (daemon_reload : Option Bool) → Holds IsValid (reload_of p daemon_reload)
  reload_of-Holds none = tt
  reload_of-Holds (some b) = tt

  reboot_of-Holds :
      (delay : Option ℕ) (reason : Option String)
      → Holds (λ n. leb n 3600 ≡ true) delay
      → Holds IsValid (reboot_of p delay reason)
  reboot_of-Holds none reason safe = tt
  reboot_of-Holds (some n) none safe = tt
  reboot_of-Holds (some n) (some s) safe = safe

  deploy_of-Holds :
      (branch : Option String)
      → Holds (λ s. (leb (length (codes s)) 128 && branch_matches (codes s)) ≡ true) branch
      → Holds IsValid (deploy_of p branch)
  deploy_of-Holds none safe = tt
  deploy_of-Holds (some s) safe = ground (arith, safe)

  if-Holds :
      (b : Bool) (x y : Option Params)
      → Holds IsValid x
      → Holds IsValid y
      → Holds IsValid (if b then x else y)
  if-Holds true x y hx hy = hx
  if-Holds false x y hx hy = hy

  pub validate_params-Holds :
      (method : String) (fields : List (String × p.Value))
      → Holds IsValid (validate_params p method fields)
  unfolding validate_params
  validate_params-Holds method fields =
      if-Holds (str_eq method "service.restart") _ _
        (restart_of-Holds _ _
          (field-Holds p.to_str none service_allowed (lookup p "service_name" fields) tt))
        (if-Holds (str_eq method "service.status") _ _
          (status_of-Holds _
            (field-Holds p.to_str none service_allowed (lookup p "service_name" fields) tt))
          (if-Holds (str_eq method "service.reload") _ _ (reload_of-Holds _) (
            if-Holds (str_eq method "system.reboot") _ _
              (reboot_of-Holds _ _ (
                field-Holds p.to_int (some 0) (λ n. leb n 3600) (lookup p "delay_seconds" fields)
                  refl))
              (if-Holds (str_eq method "system.deploy") _ none
                (deploy_of-Holds _ (
                  field-Holds p.to_str (some "main") _ (lookup p "target_branch" fields)
                    (unfold branch_matches in refl)))
                tt))))
