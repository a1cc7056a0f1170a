-- ===== src/Database/Users.antt =====
-- The users and permissions sections of `DatabaseManager` (app/database/db.py). A UNIQUE or FOREIGN
-- KEY constraint that fails raises `integrity_error`, and the open transaction leaves no trace.
-- Times are arguments.
use palworld_server_service.Common.{
  ℕ, suc, ltb, String, Bool, true, false, ◌&&◌, not, Option, none, some, List, [], ◌∷◌, ◌++◌, map,
  length, ◌==◌, str_eq, if◌then◌else◌, find_where, any_where, count_where, keep_where, delete_where,
  update_where,
}
use palworld_server_service.Common.Outcome.{
  ok, err, integrity_error, runtime_error, Action, pure, raise,
}
use palworld_server_service.Common.Text.{codes}
use palworld_server_service.Database.Models.{
  UserRecord, UserPermissionRecord, default_role_permissions,
}
use palworld_server_service.Database.Store.{Database}

abbrev pub non_empty : Option String → Option String
non_empty none = none
non_empty (some s) = if str_eq s "" then none else some s

-- `_row_to_user`: an empty last_login reads as None.
unfoldable pub row_to_user : UserRecord → UserRecord
row_to_user row = record row { last_login = non_empty row.last_login }

abbrev pub user_of : Option UserRecord → Option UserRecord
user_of none = none
user_of (some row) = some (row_to_user row)

abbrev pub has_id : ℕ → UserRecord → Bool
has_id user_id u = u.id == user_id

abbrev pub has_username : String → UserRecord → Bool
has_username name u = str_eq u.username name

unfoldable pub get_user_by_id : ℕ → Database → Option UserRecord
get_user_by_id user_id db = user_of (find_where (has_id user_id) db.users)

unfoldable pub get_user_by_username : String → Database → Option UserRecord
get_user_by_username name db = user_of (find_where (has_username name) db.users)

unfoldable pub list_users : Database → List UserRecord
list_users db = map row_to_user db.users

unfoldable pub count_users : Database → ℕ
count_users db = length db.users

-- role = 'admin' AND is_active = 1
abbrev pub is_active_admin : UserRecord → Bool
is_active_admin u = str_eq u.role "admin" && u.is_active

unfoldable pub count_active_admins : Database → ℕ
count_active_admins db = count_where is_active_admin db.users

abbrev pub grants : ℕ → String → UserPermissionRecord → Bool
grants user_id perm row = row.user_id == user_id && str_eq row.permission perm

abbrev pub belongs_to : ℕ → UserPermissionRecord → Bool
belongs_to user_id row = row.user_id == user_id

-- INSERT OR IGNORE INTO user_permissions, once for each permission.
unfoldable pub insert_or_ignore :
    ℕ → List String → List UserPermissionRecord → List UserPermissionRecord
insert_or_ignore user_id [] rows = rows
insert_or_ignore user_id (perm ∷ perms) rows = insert_or_ignore user_id perms (
    if any_where (grants user_id perm) rows
    then rows
    else rows ++ record { user_id = user_id; permission = perm } ∷ [])

abbrev pub inserted :
    String → String → String → String → String → Bool → String → Database → UserRecord
inserted username password_hash salt email role is_active now db = record {
  id = db.next_user_id;
  username = username;
  password_hash = password_hash;
  salt = salt;
  email = email;
  role = role;
  is_active = is_active;
  created_at = now;
  last_login = none;
}

abbrev pub with_user : UserRecord → Database → Database
with_user row db = record db {
  users = db.users ++ row ∷ [];
  next_user_id = suc db.next_user_id;
  user_permissions =
      insert_or_ignore row.id (default_role_permissions row.role) db.user_permissions;
}

abbrev pub or_runtime_error : Option UserRecord → Action Database UserRecord
or_runtime_error none = raise runtime_error
or_runtime_error (some user) = pure user

-- create_user. `now` is the clock's reading.
unfoldable pub create_user :
    String → String → String → String → String → Bool → String → Action Database UserRecord
create_user username password_hash salt email role is_active now db =
    let row = inserted username password_hash salt email role is_active now db in
    let db' = with_user row db in
    if any_where (has_username username) db.users
    then (err integrity_error, db)
    else or_runtime_error (get_user_by_id row.id db') db'

-- COALESCE(?, column)
abbrev pub coalesce {ℓ} : {A : Type ℓ} → Option A → A → A
coalesce none a = a
coalesce (some b) a = b

pub record UserUpdate : Type 0 where
  pub email : Option String
  pub role : Option String
  pub is_active : Option Bool
  pub password_hash : Option String
  pub salt : Option String

unfoldable pub apply_update : UserUpdate → UserRecord → UserRecord
apply_update up u = record u {
  email = coalesce up.email u.email;
  role = coalesce up.role u.role;
  is_active = coalesce up.is_active u.is_active;
  password_hash = coalesce up.password_hash u.password_hash;
  salt = coalesce up.salt u.salt;
}

-- role is not None and role != existing.role
abbrev pub role_changes : Option String → String → Bool
role_changes none old = false
role_changes (some new) old = not (str_eq new old)

abbrev pub reset_permissions :
    ℕ → Option String → String → List UserPermissionRecord → List UserPermissionRecord
reset_permissions user_id role old rows =
    if role_changes role old
    then insert_or_ignore user_id (default_role_permissions (coalesce role old))
        (delete_where (belongs_to user_id) rows)
    else rows

abbrev pub updated : ℕ → UserUpdate → UserRecord → Database → Database
updated user_id up existing db = record db {
  users = update_where (has_id user_id) (apply_update up) db.users;
  user_permissions = reset_permissions user_id up.role existing.role db.user_permissions;
}

abbrev pub update_existing :
    ℕ → UserUpdate → Option UserRecord → Action Database (Option UserRecord)
update_existing user_id up none db = (ok none, db)
update_existing user_id up (some existing) db =
    let db' = updated user_id up existing db in (ok (get_user_by_id user_id db'), db')

-- update_user: None where the user does not exist.
unfoldable pub update_user : ℕ → UserUpdate → Action Database (Option UserRecord)
update_user user_id up db = update_existing user_id up (get_user_by_id user_id db) db

-- delete_user; ON DELETE CASCADE takes the user's permissions along. True if a row was deleted.
unfoldable pub delete_user : ℕ → Action Database Bool
delete_user user_id db = (
  ok (any_where (has_id user_id) db.users),
  record db {
    users = delete_where (has_id user_id) db.users;
    user_permissions =
        if any_where (has_id user_id) db.users
        then delete_where (belongs_to user_id) db.user_permissions
        else db.user_permissions;
  },
)

abbrev pub stamp : String → UserRecord → UserRecord
stamp timestamp u = record u { last_login = some timestamp }

unfoldable pub update_user_last_login : ℕ → String → Action Database (Unit {0})
update_user_last_login user_id timestamp db =
    (ok tt, record db { users = update_where (has_id user_id) (stamp timestamp) db.users })

-- The BINARY collation: the order of code points.
abbrev pub codes_le : List ℕ → List ℕ → Bool
codes_le [] t = true
codes_le (a ∷ s) [] = false
codes_le (a ∷ s) (b ∷ t) = if ltb a b then true else (a == b && codes_le s t)

abbrev pub insert_sorted : String → List String → List String
insert_sorted p [] = p ∷ []
insert_sorted p (q ∷ qs) =
    if codes_le (codes p) (codes q) then p ∷ q ∷ qs else q ∷ insert_sorted p qs

abbrev pub sort_asc : List String → List String
sort_asc [] = []
sort_asc (p ∷ ps) = insert_sorted p (sort_asc ps)

-- SELECT permission ... WHERE user_id = ? ORDER BY permission ASC
unfoldable pub get_user_permissions : ℕ → Database → List String
get_user_permissions user_id db =
    sort_asc (map (λ row. row.permission) (keep_where (belongs_to user_id) db.user_permissions))

-- set_user_permissions. The order in which Python's set is walked shows nowhere: rows are read
-- sorted. The foreign key fails where the user does not exist and there is a row to insert.
unfoldable pub set_user_permissions : ℕ → List String → Action Database (Unit {0})
set_user_permissions user_id permissions db =
    if any_where (has_id user_id) db.users
    then (
      ok tt,
      record db {
        user_permissions =
            insert_or_ignore user_id permissions
              (delete_where (belongs_to user_id) db.user_permissions);
      },
    )
    else elim permissions [ [] ↦ (ok tt, db) | p ∷ ps ↦ (err integrity_error, db) ]
