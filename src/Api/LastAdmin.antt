-- ===== src/Api/LastAdmin.antt =====
-- The guards of app/routers/auth.py against losing the last administrator, over whole histories of
-- requests and restarts.
mod Writes
mod Start
use palworld_server_service.Common.{List}
use palworld_server_service.Auth.Bootstrap.{Server}
use palworld_server_service.Api.Serve.{Event, run}
use palworld_server_service.Api.Preserves.{Preserves, run-Keeps}
use Writes.{
  create_account-IsGoverned, update_user_last_login-IsGoverned, set_permissions-IsGoverned,
  record_login_audit-IsGoverned, acknowledge_bootstrap-IsGoverned, update_user-IsGoverned,
  delete_user-IsGoverned,
}
use Start.{start-IsGoverned}
pub use Writes.{IsGoverned}

governed : Preserves IsGoverned
governed = record {
  create_account = create_account-IsGoverned;
  update_user_last_login = update_user_last_login-IsGoverned;
  set_permissions = set_permissions-IsGoverned;
  record_login_audit = record_login_audit-IsGoverned;
  acknowledge_bootstrap = acknowledge_bootstrap-IsGoverned;
  update_user = update_user-IsGoverned;
  delete_user = delete_user-IsGoverned;
  start = start-IsGoverned;
}

-- From a consistent database with at least one active administrator, every history of requests to
-- the accounts API, by anybody, and of process restarts leaves the database consistent and at least
-- one administrator active.
pub run-IsGoverned : (es : List Event) (s : Server) → IsGoverned s → IsGoverned (run es s)
run-IsGoverned = run-Keeps governed
