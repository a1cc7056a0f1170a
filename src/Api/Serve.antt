-- ===== src/Api/Serve.antt =====
-- The routes of app/routers/auth.py: each endpoint behind its dependency, the process restarts of
-- app/main.py, and whole histories of both.
use palworld_server_service.Common.{ℤ, ℕ, String, Bool, Option, List, [], ◌∷◌}
use palworld_server_service.Common.Outcome.{Outcome, ok, err, Action, pure}
use palworld_server_service.Database.Models.{UserRecord}
use palworld_server_service.Auth.Crypto.{Crypto}
use palworld_server_service.Auth.Bootstrap.{Server, Supply, no_bootstrap, bootstrap_admin_user}
use palworld_server_service.Api.Deps.{Context, Request, get_current_user, require_permission}
use palworld_server_service.Api.Accounts.{
  Reply, done, profile_of, UserCreateRequest, UserUpdateRequest, get_bootstrap_credentials,
  acknowledge_bootstrap_credentials, login, register, create_new_user,
}
use palworld_server_service.Api.Members.{
  update_existing_user, update_user_role, delete_existing_user, list_registered_users,
  get_login_audit_trail,
}

pub data Endpoint : Type 0 where
  bootstrap_credentials : Endpoint
  ack_bootstrap : Endpoint
  -- username, password, user-agent, and the address the audit row gets
  log_in : String → String → String → String → Endpoint
  -- username, password, email
  sign_up : String → String → String → Endpoint
  log_out : Endpoint
  me : Endpoint
  audit : ℤ → ℤ → Endpoint
  users : Endpoint
  create : UserCreateRequest → Endpoint
  update : ℕ → UserUpdateRequest → Endpoint
  change_role : ℕ → String → Endpoint
  delete : ℕ → Endpoint

abbrev pub behind : Outcome UserRecord → (UserRecord → Action Server Reply) → Action Server Reply
behind (err e) k s = (err e, s)
behind (ok user) k s = k user s

-- Depends(perm_users_manage)
abbrev pub managing : Context → Request → (UserRecord → Action Server Reply) → Action Server Reply
managing ctx r k s = behind (require_permission "users:manage" ctx r s.db) k s

unfoldable pub serve : Context → Request → Supply → Endpoint → Action Server Reply
serve ctx r sup bootstrap_credentials = get_bootstrap_credentials
serve ctx r sup ack_bootstrap = acknowledge_bootstrap_credentials
serve ctx r sup (log_in username password user_agent client_ip) =
    login ctx username password client_ip user_agent sup
serve ctx r sup (sign_up username password email) = register ctx username password email sup
serve ctx r sup log_out = pure done
serve ctx r sup me = λ s. behind (get_current_user ctx r s.db) profile_of s
serve ctx r sup (audit limit offset) = managing ctx r λ _. get_login_audit_trail limit offset
serve ctx r sup users = managing ctx r λ _. list_registered_users
serve ctx r sup (create req) = managing ctx r λ _. create_new_user ctx req sup
serve ctx r sup (update user_id req) = managing ctx r λ _. update_existing_user ctx user_id req sup
serve ctx r sup (change_role user_id role) = managing ctx r λ _. update_user_role user_id role
serve ctx r sup (delete user_id) = managing ctx r λ user. delete_existing_user user user_id

-- A process that starts over a database: the in-memory state is new, then the lifespan handler
-- bootstraps. Arguments: the configured password and whether an export path is configured.
unfoldable pub start : Crypto → Option String → Bool → Supply → Server → Server
start c default_password has_export_path sup s =
    (bootstrap_admin_user c default_password has_export_path sup
      (record s { bootstrap = no_bootstrap })).1

pub data Event : Type 0 where
  request : Context → Request → Supply → Endpoint → Event
  restart : Crypto → Option String → Bool → Supply → Event

unfoldable pub step : Event → Server → Server
step (request ctx r sup e) s = (serve ctx r sup e s).1
step (restart c default_password has_export_path sup) s =
    start c default_password has_export_path sup s

unfoldable pub run : List Event → Server → Server
run [] s = s
run (e ∷ es) s = run es (step e s)

-- What holds of a server and survives every event holds after any history.
pub run_induction :
    (P : Server → Type 0)
    → ((e : Event) (s : Server) → P s → P (step e s))
    → (es : List Event) (s : Server) → P s
    → P (run es s)
unfolding run
run_induction P keep [] s h = h
run_induction P keep (e ∷ es) s h = run_induction P keep es (step e s) (keep e s h)
