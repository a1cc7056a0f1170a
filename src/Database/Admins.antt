-- ===== src/Database/Admins.antt =====
-- How each write of app/database/db.py changes the number of active administrators.
use palworld_server_service.Common.{
  ℕ, ◌+◌, ◌≤◌, String, ◌≡◌, refl, Bool, some, List, [], ◌∷◌, arith, find_where, any_where, ap,
  update_where, Bool-cases, Option-cases, inl, inr, count_where, count_where-append,
}
use palworld_server_service.Database.Models.{UserRecord}
use palworld_server_service.Database.Store.{Database}
use palworld_server_service.Database.Users.{
  has_id, has_username, is_active_admin, count_active_admins, create_user, UserUpdate, apply_update,
  update_user, get_user_by_id, delete_user, stamp, update_user_last_login, set_user_permissions,
  row_to_user, with_user, inserted,
}
use palworld_server_service.Database.Tables.{tally, count-update_where, count-delete_where}
use palworld_server_service.Database.Integrity.{IsConsistent, or_runtime_error-state}

pub count-create_user :
    (username password_hash salt email role : String) (is_active : Bool) (now : String)
    (db : Database)
    → count_active_admins db
      ≤ count_active_admins (create_user username password_hash salt email role is_active now db).1
unfolding create_user
count-create_user username password_hash salt email role is_active now db =
    let row = inserted username password_hash salt email role is_active now db in
    elim (Bool-cases (any_where (has_username username) db.users)) [
      | inl taken ↦ rw taken (omega arith)
      | inr free ↦
          rw
            (
              free,
              or_runtime_error-state (get_user_by_id row.id (with_user row db)) (with_user row db),
            )
            (unfold count_active_admins in
              omega (arith, count_where-append is_active_admin db.users (row ∷ [])))
    ]

count-stamp :
    (k : ℕ) (timestamp : String) (us : List UserRecord)
    → count_where is_active_admin (update_where (has_id k) (stamp timestamp) us)
      ≡ count_where is_active_admin us
count-stamp k timestamp [] = refl
count-stamp k timestamp (u ∷ us) = ground (arith, count-stamp k timestamp us)

pub count-update_user_last_login :
    (k : ℕ) (timestamp : String) (db : Database)
    → count_active_admins (update_user_last_login k timestamp db).1 ≡ count_active_admins db
unfolding update_user_last_login count_active_admins
count-update_user_last_login k timestamp db = count-stamp k timestamp db.users

pub users-set_user_permissions :
    (k : ℕ) (perms : List String) (db : Database)
    → (set_user_permissions k perms db).1.users ≡ db.users
unfolding set_user_permissions
users-set_user_permissions k [] db = ground arith
users-set_user_permissions k (p ∷ ps) db = ground arith

pub count-set_user_permissions :
    (k : ℕ) (perms : List String) (db : Database)
    → count_active_admins (set_user_permissions k perms db).1 ≡ count_active_admins db
unfolding count_active_admins
count-set_user_permissions k perms db =
    ap (count_where is_active_admin) (users-set_user_permissions k perms db)

-- The row that a read by key shows.
pub row_of :
    (k : ℕ) (db : Database) (existing : UserRecord)
    → get_user_by_id k db ≡ some existing
    → (row : UserRecord) × (find_where (has_id k) db.users ≡ some row)
      × (existing ≡ row_to_user row)
unfolding get_user_by_id
row_of k db existing e = elim (Option-cases (find_where (has_id k) db.users)) [
  | inl f ↦ absurd (ground arith)
  | inr (row, f) ↦ (row, f, ground arith)
]

pub count-update_user :
    (k : ℕ) (up : UserUpdate) (db : Database) (existing : UserRecord)
    → IsConsistent db
    → get_user_by_id k db ≡ some existing
    → count_active_admins (update_user k up db).1 + tally (is_active_admin existing)
      ≡ count_active_admins db + tally (is_active_admin (apply_update up existing))
unfolding update_user count_active_admins
count-update_user k up db existing c e =
    let (row, found, same) = row_of k db existing e in
    let counted =
      count-update_where k (apply_update up) is_active_admin 1 db.next_user_id db.users row c.ids
        found in
    rw (e, same) (unfold row_to_user apply_update in counted)

pub count-delete_user :
    (k : ℕ) (db : Database) (existing : UserRecord)
    → IsConsistent db
    → get_user_by_id k db ≡ some existing
    → count_active_admins (delete_user k db).1 + tally (is_active_admin existing)
      ≡ count_active_admins db
unfolding delete_user count_active_admins
count-delete_user k db existing c e =
    let (row, found, same) = row_of k db existing e in
    rw same (
      unfold row_to_user in
      count-delete_where k is_active_admin 1 db.next_user_id db.users row c.ids found)
