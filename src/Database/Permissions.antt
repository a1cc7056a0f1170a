-- ===== src/Database/Permissions.antt =====
-- What a user may do, as the permissions table of app/database/db.py says.
use palworld_server_service.Common.{
  ℕ, ◌≤◌, String, ◌≡◌, refl, ◌∙◌, ap, true, false, ◌||◌, ◌&&◌, List, [], ◌∷◌, ◌++◌, arith,
  Bool-cases, inl, inr, ◌==◌, str_eq, eq_iff, if◌then◌else◌, any_where, delete_where, keep_where,
  map, All,
}
use palworld_server_service.Database.Models.{UserPermissionRecord}
use palworld_server_service.Database.Store.{Database}
use palworld_server_service.Database.Users.{
  grants, belongs_to, insert_or_ignore, has_id, get_user_permissions, set_user_permissions,
  sort_asc, insert_sorted,
}
use palworld_server_service.Database.Tables.{any-has_id_above}
use palworld_server_service.Database.Grants.{Owned}
use palworld_server_service.Database.Integrity.{IsConsistent}
use palworld_server_service.Auth.Access.{contains}

contains-insert_sorted :
    (p q : String) (qs : List String)
    → contains p (insert_sorted q qs) ≡ (str_eq q p || contains p qs)
contains-insert_sorted p q [] = refl
contains-insert_sorted p q (r ∷ rs) = ground (arith, contains-insert_sorted p q rs)

contains-sort_asc : (p : String) (ps : List String) → contains p (sort_asc ps) ≡ contains p ps
contains-sort_asc p [] = refl
contains-sort_asc p (q ∷ qs) =
    contains-insert_sorted p q (sort_asc qs) ∙ ap (λ b. str_eq q p || b) (contains-sort_asc p qs)

contains-keep :
    (k : ℕ) (p : String) (rows : List UserPermissionRecord)
    → contains p (map (λ row. row.permission) (keep_where (belongs_to k) rows))
      ≡ any_where (grants k p) rows
contains-keep k p [] = refl
contains-keep k p (r ∷ rows) = ground (arith, contains-keep k p rows)

-- The sorted read shows a permission exactly if there is a row for it.
pub contains-get_user_permissions :
    (k : ℕ) (p : String) (db : Database)
    → contains p (get_user_permissions k db) ≡ any_where (grants k p) db.user_permissions
unfolding get_user_permissions
contains-get_user_permissions k p db =
    contains-sort_asc p
      (map (λ row. row.permission) (keep_where (belongs_to k) db.user_permissions))
    ∙ contains-keep k p db.user_permissions

any-append :
    (k : ℕ) (p : String) (rows : List UserPermissionRecord) (row : UserPermissionRecord)
    → any_where (grants k p) (rows ++ row ∷ []) ≡ (any_where (grants k p) rows || grants k p row)
any-append k p [] row = ground arith
any-append k p (r ∷ rows) row = ground (arith, any-append k p rows row)

pub any-grants-insert_or_ignore :
    (j k : ℕ) (p : String) (perms : List String) (rows : List UserPermissionRecord)
    → any_where (grants j p) (insert_or_ignore k perms rows)
      ≡ (any_where (grants j p) rows || (k == j && contains p perms))
unfolding insert_or_ignore
any-grants-insert_or_ignore j k p [] rows = ground arith
any-grants-insert_or_ignore j k p (q ∷ qs) rows =
    any-grants-insert_or_ignore j k p qs _
    ∙ ground (arith, any-append j p rows (record { user_id = k; permission = q }), eq_iff q p)

pub any-grants-delete :
    (j k : ℕ) (p : String) (rows : List UserPermissionRecord)
    → any_where (grants j p) (delete_where (belongs_to k) rows)
      ≡ (if k == j then false else any_where (grants j p) rows)
any-grants-delete j k p [] = ground arith
any-grants-delete j k p (r ∷ rows) = ground (arith, any-grants-delete j k p rows)

-- A user that does not exist yet has no permission rows.
pub any-grants-fresh :
    (db : Database) (k : ℕ) (p : String)
    → IsConsistent db
    → db.next_user_id ≤ k
    → any_where (grants k p) db.user_permissions ≡ false
any-grants-fresh db k p c h =
    unowned db.user_permissions c.owned (any-has_id_above k 1 db.next_user_id db.users c.ids h)
  where
    step :
        (r : UserPermissionRecord)
        → any_where (has_id r.user_id) db.users ≡ true
        → any_where (has_id k) db.users ≡ false
        → grants k p r ≡ false
    step r there missing = elim (Bool-cases (r.user_id == k)) [
      | inl hit ↦
          let same : r.user_id ≡ k = ground arith in
          cc (there, missing, ap (λ i. any_where (has_id i) db.users) same)
      | inr miss ↦ rw miss
    ]

    unowned :
        (rows : List UserPermissionRecord)
        → All (Owned db.users) rows
        → any_where (has_id k) db.users ≡ false
        → any_where (grants k p) rows ≡ false
    unowned [] a missing = refl
    unowned (r ∷ rows) a missing = ground (arith, step r, unowned rows a.1)

rows-set_user_permissions :
    (k : ℕ) (perms : List String) (db : Database)
    → any_where (has_id k) db.users ≡ true
    → (set_user_permissions k perms db).1.user_permissions
      ≡ insert_or_ignore k perms (delete_where (belongs_to k) db.user_permissions)
unfolding set_user_permissions
rows-set_user_permissions k perms db there = rw there

-- Rows taken out and put in again for one user: that user has exactly the new ones.
pub any-grants-regrant :
    (j k : ℕ) (p : String) (perms : List String) (rows : List UserPermissionRecord)
    → any_where (grants j p) (insert_or_ignore k perms (delete_where (belongs_to k) rows))
      ≡ (if k == j then contains p perms else any_where (grants j p) rows)
any-grants-regrant j k p perms rows =
    any-grants-insert_or_ignore j k p perms (delete_where (belongs_to k) rows)
    ∙ ground (arith, any-grants-delete j k p rows)

-- Setting the permissions of a user that exists leaves that user exactly the given ones, and every
-- other user what they had.
pub set_user_permissions_exact :
    (k j : ℕ) (p : String) (perms : List String) (db : Database)
    → any_where (has_id k) db.users ≡ true
    → contains p (get_user_permissions j (set_user_permissions k perms db).1)
      ≡ (if k == j then contains p perms else contains p (get_user_permissions j db))
set_user_permissions_exact k j p perms db there =
    rw (contains-get_user_permissions, contains-get_user_permissions)
      (ap (any_where (grants j p)) (rows-set_user_permissions k perms db there)
        ∙ any-grants-regrant j k p perms db.user_permissions)
