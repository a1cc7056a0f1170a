-- ===== src/Api/FirstStart.antt =====
-- The bootstrap of app/database/auth.py over a fresh database file.
use mathlib.Core.Path.{subst, sym}
use palworld_server_service.Common.{
  String, ◌≡◌, refl, Bool, true, Option, none, some, arith, eq_iff, str_eq, if◌then◌else◌,
}
use palworld_server_service.Database.Models.{UserRecord}
use palworld_server_service.Database.Store.{empty_database}
use palworld_server_service.Database.Users.{
  get_user_by_username, count_active_admins, count_users, create_user, get_user_by_id, row_to_user,
}
use palworld_server_service.Database.Records.{get_meta}
use palworld_server_service.Database.Integrity.{IsConsistent, create_user-IsConsistent}
use palworld_server_service.Auth.Crypto.{Crypto}
use palworld_server_service.Auth.Tokens.{hash_password, verify_password}
use palworld_server_service.Auth.Bootstrap.{
  Server, Supply, no_bootstrap, bootstrap_admin_user, set_bootstrap_pending,
}
use palworld_server_service.Api.Serve.{start}
use palworld_server_service.Api.LastAdmin.{IsGoverned}

abbrev pub fresh : Server
fresh = record { db = empty_database; bootstrap = no_bootstrap; exported = none }

start-fresh-count :
    (c : Crypto) (default_password : Option String) (has_export_path : Bool) (sup : Supply)
    → count_active_admins (start c default_password has_export_path sup fresh).db ≡ 1
unfolding start bootstrap_admin_user get_user_by_username count_users hash_password create_user
    get_user_by_id count_active_admins set_bootstrap_pending
start-fresh-count c none has_export_path sup = ground arith
start-fresh-count c (some p) has_export_path sup = ground arith

-- the account that the bootstrap creates
start-fresh-db :
    (c : Crypto) (default_password : Option String) (has_export_path : Bool) (sup : Supply)
    → (hash : String) × ((start c default_password has_export_path sup fresh).db
        ≡ (create_user "admin" hash sup.salt "admin@localhost" "admin" true sup.now
            empty_database).1)
unfolding start bootstrap_admin_user get_user_by_username count_users hash_password create_user
    get_user_by_id set_bootstrap_pending
start-fresh-db c none has_export_path sup = (c.pbkdf2 sup.password sup.salt, ground arith)
start-fresh-db c (some p) has_export_path sup =
    (c.pbkdf2 (if str_eq p "" then sup.password else p) sup.salt, ground arith)

-- The first process over a fresh database, however it is configured, leaves a consistent database
-- with an active administrator.
pub start-fresh-IsGoverned :
    (c : Crypto) (default_password : Option String) (has_export_path : Bool) (sup : Supply)
    → IsGoverned (start c default_password has_export_path sup fresh)
start-fresh-IsGoverned c default_password has_export_path sup =
    let (hash, made) = start-fresh-db c default_password has_export_path sup in
    record {
      consistent = subst IsConsistent (sym made) (
          create_user-IsConsistent "admin" hash sup.salt "admin@localhost" "admin" true sup.now
            empty_database
            (record { ids = omega arith; names = tt; owned = tt; grants_once = tt }));
      governed = omega (arith, start-fresh-count c default_password has_export_path sup);
    }

-- With no configured password, the first process shows the generated password as pending
-- credentials of "admin" and exports it where the export path can be written, and the account
-- "admin" is active and accepts exactly that password's digest.
pub start-fresh-pending :
    (c : Crypto) (has_export_path : Bool) (sup : Supply)
    → let s = start c none has_export_path sup fresh in
      (user : UserRecord) × (s.bootstrap
        ≡ record { is_pending = true; username = some "admin"; password = some sup.password })
      × (s.exported ≡ (if sup.export_works then some sup.password else none))
      × (get_user_by_username "admin" s.db ≡ some user)
      × (user.is_active ≡ true)
      × (verify_password c sup.password user.salt user.password_hash ≡ true)
unfolding start bootstrap_admin_user get_user_by_username count_users hash_password create_user
    get_user_by_id set_bootstrap_pending row_to_user verify_password get_meta
start-fresh-pending c has_export_path sup = (
  record {
    id = 1;
    username = "admin";
    password_hash = c.pbkdf2 sup.password sup.salt;
    salt = sup.salt;
    email = "admin@localhost";
    role = "admin";
    is_active = true;
    created_at = sup.now;
    last_login = none;
  },
  ground arith,
  ground arith,
  ground arith,
  refl,
  (eq_iff _ _).1 refl,
)
