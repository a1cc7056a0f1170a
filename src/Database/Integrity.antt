-- ===== src/Database/Integrity.antt =====
-- The constraints of SCHEMA_DDL (app/database/db.py) as an invariant of the tables, kept by every
-- method that writes users or permissions.
use palworld_server_service.Common.{
  ℕ, String, ◌≡◌, refl, Bool, true, false, Option, none, some, List, [], ◌∷◌, ◌++◌, find_where,
  find_where-any, ◌∙◌, any_where, delete_where, update_where, Bool-cases, Option-cases, inl, inr,
  All, All-delete_where,
}
use palworld_server_service.Common.Outcome.{Outcome, ok, err, integrity_error}
use palworld_server_service.Database.Models.{UserRecord, default_role_permissions}
use palworld_server_service.Database.Store.{Database}
use palworld_server_service.Database.Users.{
  has_id, has_username, belongs_to, insert_or_ignore, create_user, UserUpdate, apply_update,
  update_user, get_user_by_id, delete_user, stamp, update_user_last_login, set_user_permissions,
  row_to_user, with_user, inserted, or_runtime_error, role_changes, updated, coalesce,
}
use palworld_server_service.Database.Tables.{
  IdsFrom, IdsFrom-append, IdsFrom-update_where, IdsFrom-delete_where, delete_where_missing,
}
use palworld_server_service.Database.Grants.{
  NamesDistinct, GrantsDistinct, Owned, NamesDistinct-append, NamesDistinct-delete_where,
  NamesDistinct-update_where, any-ids-update, GrantsDistinct-insert_or_ignore,
  Owned-insert_or_ignore, GrantsDistinct-delete_where, Owned-mono, any-ids-append, any-ids-last,
  Owned-delete,
}

-- Primary keys grow along the table, usernames are unique, and each permission row belongs to a
-- user that exists and is there once.
pub record IsConsistent (db : Database) : Type 0 where
  pub ids : IdsFrom 1 db.users db.next_user_id
  pub names : NamesDistinct db.users
  pub owned : All (Owned db.users) db.user_permissions
  pub grants_once : GrantsDistinct db.user_permissions

with_user-IsConsistent :
    (db : Database) (row : UserRecord)
    → row.id ≡ db.next_user_id
    → any_where (has_username row.username) db.users ≡ false
    → IsConsistent db
    → IsConsistent (with_user row db)
with_user-IsConsistent db row e new c = record {
  ids = IdsFrom-append 1 db.next_user_id db.users row c.ids e;
  names = NamesDistinct-append db.users row new c.names;
  owned =
      Owned-insert_or_ignore (db.users ++ row ∷ []) row.id (default_role_permissions row.role)
        db.user_permissions (any-ids-last db.users row)
        (Owned-mono db.users (db.users ++ row ∷ []) db.user_permissions
          (λ k h. any-ids-append k db.users (row ∷ []) h) c.owned);
  grants_once =
      GrantsDistinct-insert_or_ignore row.id (default_role_permissions row.role) db.user_permissions
        c.grants_once;
}

pub or_runtime_error-state :
    (o : Option UserRecord) (db : Database) → (or_runtime_error o db).1 ≡ db
or_runtime_error-state none db = refl
or_runtime_error-state (some user) db = refl

pub create_user-IsConsistent :
    (username password_hash salt email role : String) (is_active : Bool) (now : String)
    (db : Database)
    → IsConsistent db
    → IsConsistent (create_user username password_hash salt email role is_active now db).1
unfolding create_user
create_user-IsConsistent username password_hash salt email role is_active now db c =
    let row = inserted username password_hash salt email role is_active now db in
    let made = with_user-IsConsistent db row refl in
    elim (Bool-cases (any_where (has_username username) db.users)) [
      | inl taken ↦ rw taken c
      | inr free ↦
          rw
            (
              free,
              or_runtime_error-state (get_user_by_id row.id (with_user row db)) (with_user row db),
            )
            (made free c)
    ]

-- A users table with other contents under the same keys and names.
same_keys :
    (db : Database) (k : ℕ) (f : UserRecord → UserRecord)
    → ((u : UserRecord) → (f u).id ≡ u.id)
    → ((u : UserRecord) → (f u).username ≡ u.username)
    → IsConsistent db
    → IsConsistent (record db { users = update_where (has_id k) f db.users })
same_keys db k f ids names c = record {
  ids = IdsFrom-update_where (has_id k) f 1 db.next_user_id db.users ids c.ids;
  names = NamesDistinct-update_where (has_id k) f db.users names c.names;
  owned =
      Owned-mono db.users (update_where (has_id k) f db.users) db.user_permissions
        (λ j h. rw (any-ids-update (has_id k) f j db.users ids) h) c.owned;
  grants_once = c.grants_once;
}

-- The permissions of one user, replaced.
regrant :
    (db : Database) (k : ℕ) (perms : List String)
    → any_where (has_id k) db.users ≡ true
    → IsConsistent db
    → IsConsistent (record db {
      user_permissions = insert_or_ignore k perms (delete_where (belongs_to k) db.user_permissions);
    })
regrant db k perms there c = record {
  ids = c.ids;
  names = c.names;
  owned =
      Owned-insert_or_ignore db.users k perms (delete_where (belongs_to k) db.user_permissions)
        there (All-delete_where (Owned db.users) (belongs_to k) db.user_permissions c.owned);
  grants_once =
      GrantsDistinct-insert_or_ignore k perms (delete_where (belongs_to k) db.user_permissions)
        (GrantsDistinct-delete_where (belongs_to k) db.user_permissions c.grants_once);
}

pub set_user_permissions-IsConsistent :
    (k : ℕ) (perms : List String) (db : Database)
    → IsConsistent db
    → IsConsistent (set_user_permissions k perms db).1
unfolding set_user_permissions
set_user_permissions-IsConsistent k perms db c = elim (Bool-cases (any_where (has_id k) db.users)) [
  | inl there ↦ rw there (regrant db k perms there c)
  | inr missing ↦ rw missing (refused perms)
]
  where
    refused :
        (ps : List String)
        → IsConsistent
            (elim ps as (λ x. Outcome (Unit {0}) × Database) [
              | [] ↦ (ok tt, db)
              | p ∷ qs ↦ (err integrity_error, db)
            ]).1
    refused [] = c
    refused (p ∷ ps) = c

pub update_user_last_login-IsConsistent :
    (k : ℕ) (timestamp : String) (db : Database)
    → IsConsistent db
    → IsConsistent (update_user_last_login k timestamp db).1
unfolding update_user_last_login
update_user_last_login-IsConsistent k timestamp db c =
    same_keys db k (stamp timestamp) (λ u. refl) (λ u. refl) c

pub delete_user-IsConsistent :
    (k : ℕ) (db : Database) → IsConsistent db → IsConsistent (delete_user k db).1
unfolding delete_user
delete_user-IsConsistent k db c = elim (Bool-cases (any_where (has_id k) db.users)) [
  | inl there ↦ rw there (record {
    ids = IdsFrom-delete_where (has_id k) 1 db.next_user_id db.users c.ids;
    names = NamesDistinct-delete_where (has_id k) db.users c.names;
    owned = Owned-delete k db.users db.user_permissions c.owned;
    grants_once = GrantsDistinct-delete_where (belongs_to k) db.user_permissions c.grants_once;
  })
  | inr missing ↦ rw (missing, delete_where_missing k db.users missing) c
]

updated-IsConsistent :
    (k : ℕ) (up : UserUpdate) (existing : UserRecord) (db : Database)
    → any_where (has_id k) db.users ≡ true
    → IsConsistent db
    → IsConsistent (updated k up existing db)
updated-IsConsistent k up existing db there c =
    let users' = update_where (has_id k) (apply_update up) db.users in
    let kept =
      same_keys db k (apply_update up) (unfold apply_update in λ u. refl)
        (unfold apply_update in λ u. refl) c in
    elim (Bool-cases (role_changes up.role existing.role)) [
      | inl changes ↦ rw changes (
          regrant (record db { users = users' }) k
            (default_role_permissions (coalesce up.role existing.role))
            (any-ids-update (has_id k) (apply_update up) k db.users
                (unfold apply_update in λ u. refl)
              ∙ there)
            kept)
      | inr same ↦ rw same kept
    ]

pub update_user-IsConsistent :
    (k : ℕ) (up : UserUpdate) (db : Database)
    → IsConsistent db
    → IsConsistent (update_user k up db).1
unfolding update_user get_user_by_id
update_user-IsConsistent k up db c = elim (Option-cases (find_where (has_id k) db.users)) [
  | inl e ↦ rw e c
  | inr (row, e) ↦
      rw e (
        updated-IsConsistent k up (row_to_user row) db (find_where-any (has_id k) db.users row e) c)
]
