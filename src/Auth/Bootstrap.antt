-- ===== src/Auth/Bootstrap.antt =====
-- The state of one server process and the first-spin bootstrap of app/database/auth.py: the
-- module-level `_bootstrap_state` beside the database that it is kept with.
use palworld_server_service.Common.{
  ℕ, String, Bool, true, false, Option, none, some, List, [], ◌∷◌, ◌==◌, str_eq, if◌then◌else◌,
}
use palworld_server_service.Common.Outcome.{ok, value_error, Action, pure, raise, ◌>>=◌}
use palworld_server_service.Database.Models.{UserRecord}
use palworld_server_service.Database.Store.{Database}
use palworld_server_service.Database.Users.{
  get_user_by_username, count_users, list_users, create_user,
}
use palworld_server_service.Database.Records.{get_meta, set_meta}
use palworld_server_service.Auth.Crypto.{Crypto}
use palworld_server_service.Auth.Tokens.{hash_password}

pub record BootstrapState : Type 0 where
  pub is_pending : Bool
  pub username : Option String
  pub password : Option String

abbrev pub no_bootstrap : BootstrapState
no_bootstrap = record { is_pending = false; username = none; password = none }

-- `exported` is what stands in the credential file.
pub record Server : Type 0 where
  pub db : Database
  pub bootstrap : BootstrapState
  pub exported : Option String

-- A method of `db`, run by code that holds the whole server.
abbrev pub on_db : {A : Type 0} → Action Database A → Action Server A
on_db m s = let (r, db') = m s.db in (r, record s { db = db' })

-- What the clock and the random generator hand out, and whether the export path can be written.
pub record Supply : Type 0 where
  pub now : String
  pub now_us : ℕ
  pub salt : String
  pub nonce : String
  pub password : String
  pub export_works : Bool

unfoldable pub set_bootstrap_pending : String → String → Server → Server
set_bootstrap_pending username password s = record s {
  bootstrap = record { is_pending = true; username = some username; password = some password };
}

-- acknowledge_bootstrap
unfoldable pub acknowledge_bootstrap : Action Server (Unit {0})
acknowledge_bootstrap s =
    on_db (set_meta "bootstrap_completed" "true") (record s { bootstrap = no_bootstrap })

-- _export_credentials_to_file: a write that fails is only logged.
abbrev pub export_credentials : Supply → String → Server → Server
export_credentials sup password s =
    if sup.export_works then record s { exported = some password } else s

-- The password to use, and whether it was generated: None and "" are both falsy.
abbrev pub choose_password : Option String → Supply → String × Bool
choose_password none sup = (sup.password, true)
choose_password (some p) sup = if str_eq p "" then (sup.password, true) else (p, false)

abbrev pub is_none {ℓ} : {A : Type ℓ} → Option A → Bool
is_none none = true
is_none (some a) = false

abbrev pub after_creation : Supply → String → Bool → Bool → UserRecord → Action Server UserRecord
after_creation sup password is_generated has_export_path admin_user s =
    let s₁ =
      if is_generated
      then export_credentials sup password s
      else if has_export_path
      then export_credentials sup password s
      else s in
    let s₂ =
      if is_generated
      then (if is_none (get_meta "bootstrap_completed" s₁.db)
          then set_bootstrap_pending "admin" password s₁
          else s₁)
      else s₁ in
    (ok admin_user, s₂)

-- first_users[0]: an empty list would be an IndexError, which `count_users` has ruled out.
abbrev pub first_user : List UserRecord → Action Server UserRecord
first_user [] = raise value_error
first_user (u ∷ us) = pure u

abbrev pub bootstrap_new : Crypto → Option String → Bool → Supply → Action Server UserRecord
bootstrap_new c default_password has_export_path sup s =
    let (password, is_generated) = choose_password default_password sup in
    let (pw_hash, salt) = hash_password c password sup.salt in
    (on_db (create_user "admin" pw_hash salt "admin@localhost" "admin" true sup.now)
        >>= after_creation sup password is_generated has_export_path)
      s

abbrev pub bootstrap_missing :
    Crypto → Option String → Bool → Supply → Option UserRecord → Action Server UserRecord
bootstrap_missing c default_password has_export_path sup (some existing) s = (ok existing, s)
bootstrap_missing c default_password has_export_path sup none s =
    if count_users s.db == 0
    then bootstrap_new c default_password has_export_path sup s
    else first_user (list_users s.db) s

-- bootstrap_admin_user
unfoldable pub bootstrap_admin_user :
    Crypto → Option String → Bool → Supply → Action Server UserRecord
bootstrap_admin_user c default_password has_export_path sup s =
    bootstrap_missing c default_password has_export_path sup (get_user_by_username "admin" s.db) s
