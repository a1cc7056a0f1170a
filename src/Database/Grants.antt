-- ===== src/Database/Grants.antt =====
-- Lemmas on the permissions table, and on the constraints of both tables.
use palworld_server_service.Common.{
  ℕ, String, ◌≡◌, refl, Bool, true, false, List, [], ◌∷◌, ◌++◌, arith, ◌==◌, str_eq, eq_iff,
  any_where, delete_where, update_where, All, All-append,
}
use palworld_server_service.Database.Models.{UserRecord, UserPermissionRecord}
use palworld_server_service.Database.Users.{
  has_id, has_username, grants, belongs_to, insert_or_ignore,
}

-- UNIQUE on username.
abbrev pub NamesDistinct : List UserRecord → Type 0
NamesDistinct [] = Unit {0}
NamesDistinct (u ∷ us) = (any_where (has_username u.username) us ≡ false) × NamesDistinct us

-- UNIQUE(user_id, permission).
abbrev pub GrantsDistinct : List UserPermissionRecord → Type 0
GrantsDistinct [] = Unit {0}
GrantsDistinct (row ∷ rows) =
    (any_where (grants row.user_id row.permission) rows ≡ false) × GrantsDistinct rows

-- FOREIGN KEY (user_id) REFERENCES users(id).
abbrev pub Owned : List UserRecord → UserPermissionRecord → Type 0
Owned us row = any_where (has_id row.user_id) us ≡ true

any-names-append :
    (name : String) (us : List UserRecord) (row : UserRecord)
    → any_where (has_username name) us ≡ false
    → str_eq row.username name ≡ false
    → any_where (has_username name) (us ++ row ∷ []) ≡ false
any-names-append name [] row h k = ground arith
any-names-append name (u ∷ us) row h k = ground (arith, any-names-append name us row)

pub NamesDistinct-append :
    (us : List UserRecord) (row : UserRecord)
    → any_where (has_username row.username) us ≡ false
    → NamesDistinct us
    → NamesDistinct (us ++ row ∷ [])
NamesDistinct-append [] row h d = (refl, tt)
NamesDistinct-append (u ∷ us) row h d = ground (
  arith,
  NamesDistinct-append us row,
  any-names-append u.username us row d.0,
  eq_iff u.username row.username,
  eq_iff row.username u.username,
)

module _ (p : UserRecord → Bool) where
  any-names-delete :
      (name : String) (us : List UserRecord)
      → any_where (has_username name) us ≡ false
      → any_where (has_username name) (delete_where p us) ≡ false
  any-names-delete name [] h = refl
  any-names-delete name (u ∷ us) h = ground (arith, any-names-delete name us)

  pub NamesDistinct-delete_where :
      (us : List UserRecord) → NamesDistinct us → NamesDistinct (delete_where p us)
  NamesDistinct-delete_where [] d = tt
  NamesDistinct-delete_where (u ∷ us) d =
      ground (arith, NamesDistinct-delete_where us d.1, any-names-delete u.username us d.0)

module _ (p : UserRecord → Bool) (f : UserRecord → UserRecord) where
  any-names-update :
      (name : String) (us : List UserRecord)
      → ((u : UserRecord) → (f u).username ≡ u.username)
      → any_where (has_username name) (update_where p f us) ≡ any_where (has_username name) us
  any-names-update name [] same = refl
  any-names-update name (u ∷ us) same = ground (arith, any-names-update name us same, same u)

  pub NamesDistinct-update_where :
      (us : List UserRecord)
      → ((u : UserRecord) → (f u).username ≡ u.username)
      → NamesDistinct us
      → NamesDistinct (update_where p f us)
  NamesDistinct-update_where [] same d = tt
  NamesDistinct-update_where (u ∷ us) same d = ground (
    arith,
    NamesDistinct-update_where us same d.1,
    any-names-update u.username us same,
    any-names-update (f u).username us same,
    same u,
  )

  pub any-ids-update :
      (k : ℕ) (us : List UserRecord)
      → ((u : UserRecord) → (f u).id ≡ u.id)
      → any_where (has_id k) (update_where p f us) ≡ any_where (has_id k) us
  any-ids-update k [] same = refl
  any-ids-update k (u ∷ us) same = ground (arith, any-ids-update k us same, same u)

any-grants-append :
    (k : ℕ) (perm : String) (rows : List UserPermissionRecord) (row : UserPermissionRecord)
    → any_where (grants k perm) rows ≡ false
    → grants k perm row ≡ false
    → any_where (grants k perm) (rows ++ row ∷ []) ≡ false
any-grants-append k perm [] row h e = ground arith
any-grants-append k perm (r ∷ rows) row h e = ground (arith, any-grants-append k perm rows row)

GrantsDistinct-append :
    (rows : List UserPermissionRecord) (row : UserPermissionRecord)
    → any_where (grants row.user_id row.permission) rows ≡ false
    → GrantsDistinct rows
    → GrantsDistinct (rows ++ row ∷ [])
GrantsDistinct-append [] row h d = (refl, tt)
GrantsDistinct-append (r ∷ rows) row h d = ground (
  arith,
  GrantsDistinct-append rows row,
  any-grants-append r.user_id r.permission rows row d.0,
  eq_iff r.permission row.permission,
  eq_iff row.permission r.permission,
)

pub GrantsDistinct-insert_or_ignore :
    (k : ℕ) (perms : List String) (rows : List UserPermissionRecord)
    → GrantsDistinct rows
    → GrantsDistinct (insert_or_ignore k perms rows)
unfolding insert_or_ignore
GrantsDistinct-insert_or_ignore k [] rows d = d
GrantsDistinct-insert_or_ignore k (perm ∷ perms) rows d =
    GrantsDistinct-insert_or_ignore k perms _
      (ground (arith, GrantsDistinct-append rows (record { user_id = k; permission = perm })))

pub Owned-insert_or_ignore :
    (us : List UserRecord) (k : ℕ) (perms : List String) (rows : List UserPermissionRecord)
    → any_where (has_id k) us ≡ true
    → All (Owned us) rows
    → All (Owned us) (insert_or_ignore k perms rows)
unfolding insert_or_ignore
Owned-insert_or_ignore us k [] rows h a = a
Owned-insert_or_ignore us k (perm ∷ perms) rows h a = Owned-insert_or_ignore us k perms _ h (
    ground (
      arith,
      All-append (Owned us) rows (record { user_id = k; permission = perm } ∷ []) a (h, tt),
    ))

any-grants-delete :
    (p : UserPermissionRecord → Bool) (k : ℕ) (perm : String) (rows : List UserPermissionRecord)
    → any_where (grants k perm) rows ≡ false
    → any_where (grants k perm) (delete_where p rows) ≡ false
any-grants-delete p k perm [] h = refl
any-grants-delete p k perm (r ∷ rows) h = ground (arith, any-grants-delete p k perm rows)

pub GrantsDistinct-delete_where :
    (p : UserPermissionRecord → Bool) (rows : List UserPermissionRecord)
    → GrantsDistinct rows
    → GrantsDistinct (delete_where p rows)
GrantsDistinct-delete_where p [] d = tt
GrantsDistinct-delete_where p (r ∷ rows) d = ground (
  arith,
  GrantsDistinct-delete_where p rows d.1,
  any-grants-delete p r.user_id r.permission rows d.0,
)

-- A wider table of users owns what a narrower one does.
pub Owned-mono :
    (us vs : List UserRecord) (rows : List UserPermissionRecord)
    → ((k : ℕ) → any_where (has_id k) us ≡ true → any_where (has_id k) vs ≡ true)
    → All (Owned us) rows
    → All (Owned vs) rows
Owned-mono us vs [] h a = tt
Owned-mono us vs (r ∷ rows) h a = (h r.user_id a.0, Owned-mono us vs rows h a.1)

pub any-ids-append :
    (k : ℕ) (us vs : List UserRecord)
    → any_where (has_id k) us ≡ true
    → any_where (has_id k) (us ++ vs) ≡ true
any-ids-append k [] vs h = absurd (ground arith)
any-ids-append k (u ∷ us) vs h = ground (arith, any-ids-append k us vs)

pub any-ids-last :
    (us : List UserRecord) (row : UserRecord) → any_where (has_id row.id) (us ++ row ∷ []) ≡ true
any-ids-last [] row = ground arith
any-ids-last (u ∷ us) row = ground (arith, any-ids-last us row)

any-ids-delete :
    (k j : ℕ) (us : List UserRecord)
    → (j == k) ≡ false
    → any_where (has_id j) us ≡ true
    → any_where (has_id j) (delete_where (has_id k) us) ≡ true
any-ids-delete k j [] ne h = absurd (ground arith)
any-ids-delete k j (u ∷ us) ne h = ground (arith, any-ids-delete k j us)

-- ON DELETE CASCADE keeps the foreign key.
pub Owned-delete :
    (k : ℕ) (us : List UserRecord) (rows : List UserPermissionRecord)
    → All (Owned us) rows
    → All (Owned (delete_where (has_id k) us)) (delete_where (belongs_to k) rows)
Owned-delete k us [] a = tt
Owned-delete k us (r ∷ rows) a =
    ground (arith, Owned-delete k us rows a.1, any-ids-delete k r.user_id us)
