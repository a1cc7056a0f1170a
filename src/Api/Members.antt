-- ===== src/Api/Members.antt =====
-- The endpoints of app/routers/auth.py that administer accounts.
use palworld_server_service.Common.{
  ℤ, ℕ, String, ◌==◌, Bool, true, false, ◌&&◌, not, Option, none, some, map, leb, str_eq,
  if◌then◌else◌,
}
use palworld_server_service.Common.Outcome.{ok, err, http, Action, pure, raise, ◌>>=◌, ◌>>◌}
use palworld_server_service.Database.Models.{UserRecord}
use palworld_server_service.Database.Store.{Database}
use palworld_server_service.Database.Users.{
  get_user_by_id, list_users, count_active_admins, UserUpdate, update_user, delete_user,
  get_user_permissions,
}
use palworld_server_service.Database.Records.{list_login_audits}
use palworld_server_service.Auth.Tokens.{hash_password}
use palworld_server_service.Auth.Bootstrap.{Server, Supply, on_db}
use palworld_server_service.Api.Deps.{Context}
use palworld_server_service.Api.Accounts.{
  Reply, UserUpdateRequest, audits, done, profile_of, profiles, respond, set_permissions,
}

-- What a call would leave of the rights of an active administrator.
abbrev pub demotes : Option String → Bool
demotes none = false
demotes (some role) = not (str_eq role "admin")

abbrev pub deactivates : Option Bool → Bool
deactivates none = false
deactivates (some active) = not active

abbrev pub is_last_admin : UserRecord → Database → Bool
is_last_admin existing db =
    str_eq existing.role "admin" && (existing.is_active && leb (count_active_admins db) 1)

-- The new hash and salt where the request brings a password that is not empty.
abbrev pub new_password : Context → Option String → Supply → Option (String × String)
new_password ctx none sup = none
new_password ctx (some p) sup =
    if str_eq p "" then none else some (hash_password ctx.crypto p sup.salt)

abbrev pub first_of_pair : Option (String × String) → Option String
first_of_pair none = none
first_of_pair (some (a, b)) = some a

abbrev pub second_of_pair : Option (String × String) → Option String
second_of_pair none = none
second_of_pair (some (a, b)) = some b

abbrev pub update_of : Context → UserUpdateRequest → Supply → UserUpdate
update_of ctx req sup =
    let hashed = new_password ctx req.password sup in
    record {
      email = req.email;
      role = req.role;
      is_active = req.is_active;
      password_hash = first_of_pair hashed;
      salt = second_of_pair hashed;
    }

abbrev pub or_not_found : Option UserRecord → Action Server UserRecord
or_not_found none = raise (http 404)
or_not_found (some user) = pure user

abbrev pub update_found :
    Context → ℕ → UserUpdateRequest → Supply → Option UserRecord → Action Server Reply
update_found ctx user_id req sup none s = (err (http 404), s)
update_found ctx user_id req sup (some existing) s =
    if is_last_admin existing s.db && demotes req.role
    then (err (http 400), s)
    else if is_last_admin existing s.db && deactivates req.is_active
    then (err (http 400), s)
    else (on_db (update_user user_id (update_of ctx req sup)) >>= λ found.
          or_not_found found >>= λ user. set_permissions user_id req.permissions >> profile_of user)
        s

unfoldable pub update_existing_user : Context → ℕ → UserUpdateRequest → Supply → Action Server Reply
update_existing_user ctx user_id req sup s =
    update_found ctx user_id req sup (get_user_by_id user_id s.db) s

abbrev pub role_only : String → UserUpdate
role_only role = record {
  email = none;
  role = some role;
  is_active = none;
  password_hash = none;
  salt = none;
}

abbrev pub update_role_found : ℕ → String → Option UserRecord → Action Server Reply
update_role_found user_id role none s = (err (http 404), s)
update_role_found user_id role (some existing) s =
    if is_last_admin existing s.db && not (str_eq role "admin")
    then (err (http 400), s)
    else (on_db (update_user user_id (role_only role)) >>= λ found.
          or_not_found found >>= profile_of)
        s

unfoldable pub update_user_role : ℕ → String → Action Server Reply
update_user_role user_id role s = update_role_found user_id role (get_user_by_id user_id s.db) s

abbrev pub deleted : Bool → Action Server Reply
deleted true = pure done
deleted false = raise (http 404)

abbrev pub delete_found : ℕ → Option UserRecord → Action Server Reply
delete_found user_id none s = (err (http 404), s)
delete_found user_id (some existing) s =
    if is_last_admin existing s.db
    then (err (http 400), s)
    else (on_db (delete_user user_id) >>= deleted) s

unfoldable pub delete_existing_user : UserRecord → ℕ → Action Server Reply
delete_existing_user admin_user user_id s =
    if admin_user.id == user_id
    then (err (http 400), s)
    else delete_found user_id (get_user_by_id user_id s.db) s

unfoldable pub list_registered_users : Action Server Reply
list_registered_users s =
    (ok (profiles (map (λ u. respond u (get_user_permissions u.id s.db)) (list_users s.db))), s)

unfoldable pub get_login_audit_trail : ℤ → ℤ → Action Server Reply
get_login_audit_trail limit offset s = (ok (audits (list_login_audits limit offset s.db)), s)
