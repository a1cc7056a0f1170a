-- ===== src/Api/Preserves.antt =====
-- Invariants of the accounts API: an invariant that every write keeps holds after any history.
mod Writes
mod Endpoints
use mathlib.Core.Path.{subst}
use palworld_server_service.Common.{
  ℕ, ◌≤◌, String, ◌≡◌, refl, Bool, true, false, Option, none, some, List, [], ◌==◌, if◌then◌else◌,
  sym, ◌∷◌, str_eq, arith,
}
use palworld_server_service.Common.Outcome.{Outcome, ok, err, http, Action, pure, ◌>>=◌, ◌>>◌}
use palworld_server_service.Common.Keeps.{
  Keeps, Keeps-raise, Keeps-pure, Keeps-then, if-keeps, continue-keeps,
}
use palworld_server_service.Database.Models.{UserRecord}
use palworld_server_service.Database.Store.{empty_database}
use palworld_server_service.Database.Users.{
  get_user_by_username, count_active_admins, count_users, list_users, create_user,
}
use palworld_server_service.Database.Integrity.{IsConsistent, create_user-IsConsistent}
use palworld_server_service.Database.Admins.{count-create_user}
use palworld_server_service.Auth.Crypto.{Crypto}
use palworld_server_service.Auth.Tokens.{hash_password}
use palworld_server_service.Auth.Bootstrap.{
  Server, Supply, no_bootstrap, bootstrap_admin_user, acknowledge_bootstrap, bootstrap_missing,
  bootstrap_new, first_user, after_creation, choose_password, set_bootstrap_pending, on_db,
}
use palworld_server_service.Api.Deps.{Context, Request, require_permission, get_current_user}
use palworld_server_service.Api.Accounts.{
  get_bootstrap_credentials, acknowledge_bootstrap_credentials, profile_of, Reply, done,
}
use palworld_server_service.Api.Members.{
  update_existing_user, update_user_role, list_registered_users, get_login_audit_trail,
}
use palworld_server_service.Api.Serve.{
  Endpoint, bootstrap_credentials, ack_bootstrap, log_in, sign_up, log_out, me, audit, users,
  create, managing, update, change_role, delete, behind, serve, start, Event, request, restart,
  step, run, run_induction,
}
use Endpoints.{
  profile_of-Keeps, login-Keeps, register-Keeps, create_new_user-Keeps, delete_existing_user-Keeps,
  update_found-Keeps, update_role_found-Keeps,
}
pub use Writes.{Preserves}

module _ {P : Server → Type 0} (w : Preserves P) where
  behind-Keeps :
      (caller : Outcome UserRecord) (k : UserRecord → Action Server Reply)
      → ((user : UserRecord) → Keeps P (k user))
      → Keeps P (behind caller k)
  behind-Keeps (err e) k h = record { at = λ s g. g }
  behind-Keeps (ok user) k h = record { at = λ s g. (h user).at s g }

  managing-Keeps :
      (ctx : Context) (r : Request) (k : UserRecord → Action Server Reply)
      → ((user : UserRecord) → Keeps P (k user))
      → Keeps P (managing ctx r k)
  managing-Keeps ctx r k h = record {
    at = λ s g. (behind-Keeps (require_permission "users:manage" ctx r s.db) k h).at s g;
  }

  credentials-Keeps : Keeps P get_bootstrap_credentials
  unfolding get_bootstrap_credentials
  credentials-Keeps = record { at = λ s g. if-keeps P s.bootstrap.is_pending _ _ g g }

  ack-Keeps : Keeps P acknowledge_bootstrap_credentials
  unfolding acknowledge_bootstrap_credentials
  ack-Keeps = record {
    at = λ s g.
        if-keeps P s.bootstrap.is_pending ((acknowledge_bootstrap >> pure done) s)
          (err (http 409), s)
          ((Keeps-then acknowledge_bootstrap (pure done) w.acknowledge_bootstrap
              (Keeps-pure done)).at
            s g)
          g;
  }

  serve-Keeps :
      (ctx : Context) (r : Request) (sup : Supply) (e : Endpoint) → Keeps P (serve ctx r sup e)
  unfolding serve
  serve-Keeps ctx r sup bootstrap_credentials = credentials-Keeps
  serve-Keeps ctx r sup ack_bootstrap = ack-Keeps
  serve-Keeps ctx r sup (log_in username password user_agent client_ip) =
      login-Keeps w ctx username password client_ip user_agent sup
  serve-Keeps ctx r sup (sign_up username password email) =
      register-Keeps w ctx username password email sup
  serve-Keeps ctx r sup log_out = record { at = λ s g. g }
  serve-Keeps ctx r sup me = record {
    at = λ s g. (behind-Keeps (get_current_user ctx r s.db) profile_of (profile_of-Keeps w)).at s g;
  }
  serve-Keeps ctx r sup (audit limit offset) =
      managing-Keeps ctx r _ (λ user. record { at = λ s g. unfold get_login_audit_trail in g })
  serve-Keeps ctx r sup users =
      managing-Keeps ctx r _ (λ user. record { at = λ s g. unfold list_registered_users in g })
  serve-Keeps ctx r sup (create req) =
      managing-Keeps ctx r _ (λ user. create_new_user-Keeps w ctx req sup)
  serve-Keeps ctx r sup (update k req) = managing-Keeps ctx r _ (λ user. record {
    at = λ s g. unfold update_existing_user in update_found-Keeps w ctx k req sup _ s refl g;
  })
  serve-Keeps ctx r sup (change_role k role) = managing-Keeps ctx r _ (λ user. record {
    at = λ s g. unfold update_user_role in update_role_found-Keeps w k role _ s refl g;
  })
  serve-Keeps ctx r sup (delete k) =
      managing-Keeps ctx r _ (λ user. delete_existing_user-Keeps w user k)

  step-Keeps : (e : Event) (s : Server) → P s → P (step e s)
  unfolding step
  step-Keeps (request ctx r sup e) s g = (serve-Keeps ctx r sup e).at s g
  step-Keeps (restart c default_password has_export_path sup) s g =
      w.start c default_password has_export_path sup s g

  -- Whatever every write keeps holds after any history of requests and restarts.
  pub run-Keeps : (es : List Event) (s : Server) → P s → P (run es s)
  run-Keeps = run_induction P step-Keeps
