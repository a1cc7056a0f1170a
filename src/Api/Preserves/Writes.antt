-- ===== src/Api/Preserves/Writes.antt =====
-- What an invariant of the server has to survive: the writes that the endpoints of
-- app/routers/auth.py are made of, and the start of a process.
use palworld_server_service.Common.{ℕ, String, ◌≡◌, ◌⊎◌, Bool, true, false, Option, some, List}
use palworld_server_service.Common.Keeps.{Keeps}
use palworld_server_service.Database.Models.{UserRecord}
use palworld_server_service.Database.Users.{
  is_active_admin, UserUpdate, apply_update, update_user, get_user_by_id, delete_user,
  update_user_last_login,
}
use palworld_server_service.Database.Records.{record_login_audit}
use palworld_server_service.Auth.Crypto.{Crypto}
use palworld_server_service.Auth.Bootstrap.{Server, Supply, on_db, acknowledge_bootstrap}
use palworld_server_service.Api.Deps.{Context}
use palworld_server_service.Api.Accounts.{create_account, set_permissions}
use palworld_server_service.Api.Members.{is_last_admin}
use palworld_server_service.Api.Serve.{start}

-- Updates and deletions come with what the endpoints have checked before them.
pub record Preserves (P : Server → Type 0) : Type 0 where
  pub create_account :
      (ctx : Context) (username password email role : String) (sup : Supply)
      → Keeps P (create_account ctx username password email role sup)
  pub update_user_last_login :
      (k : ℕ) (timestamp : String) → Keeps P (on_db (update_user_last_login k timestamp))
  pub set_permissions : (k : ℕ) (perms : Option (List String)) → Keeps P (set_permissions k perms)
  pub record_login_audit :
      (username client_ip user_agent status reason now : String)
      → Keeps P (on_db (record_login_audit username client_ip user_agent status reason now))
  pub acknowledge_bootstrap : Keeps P acknowledge_bootstrap
  pub update_user :
      (k : ℕ) (up : UserUpdate) (s : Server) (existing : UserRecord)
      → get_user_by_id k s.db ≡ some existing
      → (is_last_admin existing s.db ≡ false) ⊎ (is_active_admin (apply_update up existing) ≡ true)
      → P s
      → P (on_db (update_user k up) s).1
  pub delete_user :
      (k : ℕ) (s : Server) (existing : UserRecord)
      → get_user_by_id k s.db ≡ some existing
      → is_last_admin existing s.db ≡ false
      → P s
      → P (on_db (delete_user k) s).1
  pub start :
      (c : Crypto) (default_password : Option String) (has_export_path : Bool) (sup : Supply)
      (s : Server)
      → P s
      → P (start c default_password has_export_path sup s)
