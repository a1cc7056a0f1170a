-- ===== src/Database/Creation.antt =====
-- What `create_user` of app/database/db.py returns and leaves.
use palworld_server_service.Common.{
  String, ◌≡◌, refl, ◌∙◌, ap, Bool, true, false, none, some, List, [], ◌∷◌, ◌++◌, arith, eq_iff,
  any_where, find_where, find_where-none, Option-cases, inl, inr,
}
use palworld_server_service.Common.Outcome.{ok}
use palworld_server_service.Database.Models.{UserRecord, default_role_permissions}
use palworld_server_service.Database.Store.{Database}
use palworld_server_service.Database.Users.{
  has_id, has_username, create_user, inserted, with_user, get_user_by_id, get_user_by_username,
  row_to_user, get_user_permissions,
}
use palworld_server_service.Database.Tables.{any-has_id_above}
use palworld_server_service.Database.Integrity.{IsConsistent}
use palworld_server_service.Database.Permissions.{
  contains-get_user_permissions, any-grants-insert_or_ignore, any-grants-fresh,
}
use palworld_server_service.Auth.Access.{contains}

find-append :
    (p : UserRecord → Bool) (us : List UserRecord) (row : UserRecord)
    → any_where p us ≡ false
    → p row ≡ true
    → find_where p (us ++ row ∷ []) ≡ some row
find-append p [] row h e = ground arith
find-append p (u ∷ us) row h e = ground (arith, find-append p us row)

pub free_of_missing :
    (username : String) (db : Database)
    → get_user_by_username username db ≡ none
    → any_where (has_username username) db.users ≡ false
unfolding get_user_by_username
free_of_missing username db e = elim (Option-cases (find_where (has_username username) db.users)) [
  | inl f ↦ find_where-none (has_username username) db.users f
  | inr (row, f) ↦ absurd (ground arith)
]

module _ (username hash salt email role : String) (active : Bool) (now : String)
    (db : Database) where
  abbrev row : UserRecord
  row = inserted username hash salt email role active now db

  row_same : row_to_user row ≡ row
  unfolding row_to_user
  row_same = refl

  found_by_id : IsConsistent db → get_user_by_id db.next_user_id (with_user row db) ≡ some row
  unfolding get_user_by_id
  found_by_id c =
      rw
        (find-append (has_id db.next_user_id) db.users row
          (any-has_id_above db.next_user_id 1 db.next_user_id db.users c.ids (omega arith))
          (ground arith))
        (ap some row_same)

  -- A free name: the new user is returned, and stands in the table.
  pub create_user_new :
      IsConsistent db
      → any_where (has_username username) db.users ≡ false
      → create_user username hash salt email role active now db ≡ (ok row, with_user row db)
  unfolding create_user
  create_user_new c free = rw (free, found_by_id c)

  pub found_by_username :
      any_where (has_username username) db.users ≡ false
      → get_user_by_username username (with_user row db) ≡ some row
  unfolding get_user_by_username
  found_by_username free =
      rw (find-append (has_username username) db.users row free ((eq_iff username username).1 refl))
        (ap some row_same)

  -- It has the default permissions of its role, and no others.
  pub contains-created :
      (p : String)
      → IsConsistent db
      → contains p (get_user_permissions db.next_user_id (with_user row db))
        ≡ contains p (default_role_permissions role)
  contains-created p c =
      contains-get_user_permissions db.next_user_id p (with_user row db)
      ∙ any-grants-insert_or_ignore db.next_user_id db.next_user_id p
          (default_role_permissions role) db.user_permissions
      ∙ ground (arith, any-grants-fresh db db.next_user_id p c)
