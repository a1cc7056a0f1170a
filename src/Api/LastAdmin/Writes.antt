-- ===== src/Api/LastAdmin/Writes.antt =====
-- The writes that the endpoints of app/routers/auth.py make, as they are guarded, keep an
-- administrator active.
use palworld_server_service.Common.{
  ℕ, ◌≤◌, String, ◌≡◌, ◌⊎◌, true, false, Option, none, some, List, arith,
}
use palworld_server_service.Common.Keeps.{Keeps, Keeps-pure}
use palworld_server_service.Database.Models.{UserRecord}
use palworld_server_service.Database.Users.{count_active_admins, update_user_last_login}
use palworld_server_service.Database.Records.{record_login_audit, set_meta}
use palworld_server_service.Database.Integrity.{
  IsConsistent, create_user-IsConsistent, update_user_last_login-IsConsistent,
  set_user_permissions-IsConsistent,
}
use palworld_server_service.Database.Admins.{
  count-create_user, count-update_user_last_login, count-set_user_permissions,
}
use palworld_server_service.Auth.Bootstrap.{Server, Supply, on_db, acknowledge_bootstrap}
use palworld_server_service.Api.Deps.{Context}
use palworld_server_service.Api.Accounts.{profile_of, create_account, set_permissions}
use palworld_server_service.Database.Users.{
  is_active_admin, UserUpdate, apply_update, update_user, get_user_by_id, delete_user,
}
use palworld_server_service.Database.Integrity.{update_user-IsConsistent, delete_user-IsConsistent}
use palworld_server_service.Database.Admins.{count-update_user, count-delete_user}
use palworld_server_service.Api.Members.{is_last_admin}

-- A consistent database with an active administrator.
pub record IsGoverned (s : Server) : Type 0 where
  pub consistent : IsConsistent s.db
  pub governed : 1 ≤ count_active_admins s.db

pub create_account-IsGoverned :
    (ctx : Context) (username password email role : String) (sup : Supply)
    → Keeps IsGoverned (create_account ctx username password email role sup)
create_account-IsGoverned ctx username password email role sup = record {
  at = λ s g. record {
    consistent = create_user-IsConsistent username _ _ email role true sup.now s.db g.consistent;
    governed =
        omega (arith, count-create_user username _ _ email role true sup.now s.db, g.governed);
  };
}

pub update_user_last_login-IsGoverned :
    (k : ℕ) (timestamp : String) → Keeps IsGoverned (on_db (update_user_last_login k timestamp))
update_user_last_login-IsGoverned k timestamp = record {
  at = λ s g. record {
    consistent = update_user_last_login-IsConsistent k timestamp s.db g.consistent;
    governed = rw (count-update_user_last_login k timestamp s.db) g.governed;
  };
}

pub set_permissions-IsGoverned :
    (k : ℕ) (perms : Option (List String)) → Keeps IsGoverned (set_permissions k perms)
set_permissions-IsGoverned k none = Keeps-pure tt
set_permissions-IsGoverned k (some perms) = record {
  at = λ s g. record {
    consistent = set_user_permissions-IsConsistent k perms s.db g.consistent;
    governed = rw (count-set_user_permissions k perms s.db) g.governed;
  };
}

pub profile_of-IsGoverned : (user : UserRecord) → Keeps IsGoverned (profile_of user)
profile_of-IsGoverned user = record { at = λ s g. g }

pub record_login_audit-IsGoverned :
    (username client_ip user_agent status reason now : String)
    → Keeps IsGoverned (on_db (record_login_audit username client_ip user_agent status reason now))
record_login_audit-IsGoverned username client_ip user_agent status reason now = record {
  at = λ s g.
      unfold record_login_audit count_active_admins in
      record {
        consistent = record {
          ids = g.consistent.ids;
          names = g.consistent.names;
          owned = g.consistent.owned;
          grants_once = g.consistent.grants_once;
        };
        governed = g.governed;
      };
}

pub acknowledge_bootstrap-IsGoverned : Keeps IsGoverned acknowledge_bootstrap
acknowledge_bootstrap-IsGoverned = record {
  at = λ s g.
      unfold acknowledge_bootstrap set_meta count_active_admins in
      record {
        consistent = record {
          ids = g.consistent.ids;
          names = g.consistent.names;
          owned = g.consistent.owned;
          grants_once = g.consistent.grants_once;
        };
        governed = g.governed;
      };
}

-- An update that leaves an active administrator, or does not touch the last one, is safe.
pub update_user-IsGoverned :
    (k : ℕ) (up : UserUpdate) (s : Server) (existing : UserRecord)
    → get_user_by_id k s.db ≡ some existing
    → (is_last_admin existing s.db ≡ false) ⊎ (is_active_admin (apply_update up existing) ≡ true)
    → IsGoverned s
    → IsGoverned (on_db (update_user k up) s).1
update_user-IsGoverned k up s existing e safe g = record {
  consistent = update_user-IsConsistent k up s.db g.consistent;
  governed = ground (arith, count-update_user k up s.db existing g.consistent e, g.governed);
}

pub delete_user-IsGoverned :
    (k : ℕ) (s : Server) (existing : UserRecord)
    → get_user_by_id k s.db ≡ some existing
    → is_last_admin existing s.db ≡ false
    → IsGoverned s
    → IsGoverned (on_db (delete_user k) s).1
delete_user-IsGoverned k s existing e safe g = record {
  consistent = delete_user-IsConsistent k s.db g.consistent;
  governed = ground (arith, count-delete_user k s.db existing g.consistent e, g.governed);
}
