-- ===== src/Api/Accounts.antt =====
-- The endpoints of app/routers/auth.py, but those that Members has. Request
-- bodies have passed their pydantic models; what randomness and the clock hand to a call is its
-- `Supply`. The endpoints await nothing but the bootstrap acknowledgement, so each is one step here.
use palworld_server_service.Common.{
  ℕ, String, Bool, true, false, ◌&&◌, Option, none, some, List, str_eq, if◌then◌else◌,
}
use palworld_server_service.Common.Text.{Text}
use palworld_server_service.Common.Outcome.{ok, err, http, Action, pure, raise, ◌>>=◌, ◌>>◌}
use palworld_server_service.Database.Models.{UserRecord, LoginAuditRecord}
use palworld_server_service.Database.Users.{
  get_user_by_username, create_user, update_user_last_login, get_user_permissions,
  set_user_permissions,
}
use palworld_server_service.Database.Records.{record_login_audit}
use palworld_server_service.Auth.Tokens.{hash_password, verify_password, generate_session_token}
use palworld_server_service.Auth.Bootstrap.{Server, Supply, on_db, acknowledge_bootstrap}
use palworld_server_service.Api.Deps.{Context}

pub record UserResponse : Type 0 where
  pub id : ℕ
  pub username : String
  pub email : String
  pub role : String
  pub is_active : Bool
  pub created_at : String
  pub last_login : Option String
  pub permissions : List String

pub record Credentials : Type 0 where
  pub username : Option String
  pub password : Option String

pub record LoginResponse : Type 0 where
  pub token : Text
  pub username : String
  pub role : String
  pub permissions : List String

pub record UserCreateRequest : Type 0 where
  pub username : String
  pub password : String
  pub email : String
  pub role : String
  pub permissions : Option (List String)

pub record UserUpdateRequest : Type 0 where
  pub email : Option String
  pub role : Option String
  pub is_active : Option Bool
  pub password : Option String
  pub permissions : Option (List String)

pub data Reply : Type 0 where
  credentials : Credentials → Reply
  logged_in : LoginResponse → Reply
  profile : UserResponse → Reply
  profiles : List UserResponse → Reply
  audits : List LoginAuditRecord → Reply
  done : Reply

abbrev pub respond : UserRecord → List String → UserResponse
respond user perms = record {
  id = user.id;
  username = user.username;
  email = user.email;
  role = user.role;
  is_active = user.is_active;
  created_at = user.created_at;
  last_login = user.last_login;
  permissions = perms;
}

-- Reads the permissions of a user and builds the response.
abbrev pub profile_of : UserRecord → Action Server Reply
profile_of user s = (ok (profile (respond user (get_user_permissions user.id s.db))), s)

unfoldable pub get_bootstrap_credentials : Action Server Reply
get_bootstrap_credentials s =
    if s.bootstrap.is_pending
    then (
      ok (
          credentials
            (record { username = s.bootstrap.username; password = s.bootstrap.password })),
      s,
    )
    else (err (http 404), s)

unfoldable pub acknowledge_bootstrap_credentials : Action Server Reply
acknowledge_bootstrap_credentials s =
    if s.bootstrap.is_pending then (acknowledge_bootstrap >> pure done) s else (err (http 409), s)

-- The account that a login is accepted for; `none` where it fails.
unfoldable pub accepted : Context → String → Option UserRecord → Option UserRecord
accepted ctx password none = none
accepted ctx password (some user) =
    if user.is_active && verify_password ctx.crypto password user.salt user.password_hash
    then some user
    else none

abbrev pub failure_reason : Option UserRecord → String
failure_reason none = "Invalid credentials"
failure_reason (some user) = if user.is_active then "Invalid credentials" else "Account disabled"

abbrev pub reject_login : String → String → String → String → Supply → Action Server Reply
reject_login username client_ip user_agent reason sup =
    on_db (record_login_audit username client_ip user_agent "FAILED" reason sup.now)
    >> raise (http 401)

abbrev pub acknowledge_on_admin : UserRecord → Action Server (Unit {0})
acknowledge_on_admin user s =
    if s.bootstrap.is_pending && str_eq user.role "admin"
    then acknowledge_bootstrap s
    else (ok tt, s)

abbrev pub login_reply : Context → Supply → UserRecord → Action Server Reply
login_reply ctx sup user s = (
  ok (
      logged_in (record {
        token =
            generate_session_token ctx.crypto user.username ctx.admin_password 86400 sup.now_us
              sup.nonce;
        username = user.username;
        role = user.role;
        permissions = get_user_permissions user.id s.db;
      })),
  s,
)

abbrev pub accept_login : Context → String → String → Supply → UserRecord → Action Server Reply
accept_login ctx client_ip user_agent sup user =
    on_db (record_login_audit user.username client_ip user_agent "SUCCESS" "" sup.now)
    >> (on_db (update_user_last_login user.id sup.now)
        >> (acknowledge_on_admin user >> login_reply ctx sup user))

abbrev pub decide_login :
    Context
    → String
    → String
    → String
    → Supply
    → Option UserRecord
    → Option UserRecord
    → Action Server Reply
decide_login ctx username client_ip user_agent sup found none =
    reject_login username client_ip user_agent (failure_reason found) sup
decide_login ctx username client_ip user_agent sup found (some user) =
    accept_login ctx client_ip user_agent sup user

unfoldable pub login : Context → String → String → String → String → Supply → Action Server Reply
login ctx username password client_ip user_agent sup s =
    let found = get_user_by_username username s.db in
    decide_login ctx username client_ip user_agent sup found (accepted ctx password found) s

abbrev pub set_permissions : ℕ → Option (List String) → Action Server (Unit {0})
set_permissions user_id none = pure tt
set_permissions user_id (some permissions) = on_db (set_user_permissions user_id permissions)

-- db.create_user after hash_password.
abbrev pub create_account :
    Context → String → String → String → String → Supply → Action Server UserRecord
create_account ctx username password email role sup =
    let (pw_hash, salt) = hash_password ctx.crypto password sup.salt in
    on_db (create_user username pw_hash salt email role true sup.now)

abbrev pub is_some {ℓ} : {A : Type ℓ} → Option A → Bool
is_some none = false
is_some (some a) = true

unfoldable pub register : Context → String → String → String → Supply → Action Server Reply
register ctx username password email sup s =
    if is_some (get_user_by_username username s.db)
    then (err (http 409), s)
    else (create_account ctx username password email "viewer" sup >>= profile_of) s

unfoldable pub create_new_user : Context → UserCreateRequest → Supply → Action Server Reply
create_new_user ctx req sup s =
    if is_some (get_user_by_username req.username s.db)
    then (err (http 409), s)
    else (create_account ctx req.username req.password req.email req.role sup >>= λ user.
          set_permissions user.id req.permissions >> profile_of user)
        s
