-- ===== src/Database/Tables.antt =====
-- Lemmas on the users table: keys increase, and a statement whose WHERE clause tests the key
-- touches one row.
use palworld_server_service.Common.{
  ℕ, suc, ◌+◌, ◌≤◌, ◌<◌, ◌≡◌, refl, Bool, false, some, List, [], ◌∷◌, ◌++◌, arith, ◌==◌,
  if◌then◌else◌, find_where, any_where, count_where, delete_where, update_where, Bool-cases, inl,
  inr,
}
use palworld_server_service.Database.Models.{UserRecord}
use palworld_server_service.Database.Users.{has_id}

-- The ids grow along the table, from `lo` on and below `hi`.
abbrev pub IdsFrom : ℕ → List UserRecord → ℕ → Type 0
IdsFrom lo [] hi = lo ≤ hi
IdsFrom lo (u ∷ us) hi = (lo ≤ u.id) × IdsFrom (suc u.id) us hi

IdsFrom-mono :
    (lo lo' hi : ℕ) (us : List UserRecord) → lo' ≤ lo → IdsFrom lo us hi → IdsFrom lo' us hi
IdsFrom-mono lo lo' hi [] h i = omega arith
IdsFrom-mono lo lo' hi (u ∷ us) h i = (omega arith, i.1)

IdsFrom-le : (lo hi : ℕ) (us : List UserRecord) → IdsFrom lo us hi → lo ≤ hi
IdsFrom-le lo hi [] i = i
IdsFrom-le lo hi (u ∷ us) i = omega (arith, IdsFrom-le (suc u.id) hi us i.1)

pub IdsFrom-append :
    (lo hi : ℕ) (us : List UserRecord) (row : UserRecord)
    → IdsFrom lo us hi
    → row.id ≡ hi
    → IdsFrom lo (us ++ row ∷ []) (suc hi)
IdsFrom-append lo hi [] row i e = (omega arith, omega arith)
IdsFrom-append lo hi (u ∷ us) row i e = (i.0, IdsFrom-append (suc u.id) hi us row i.1 e)

pub IdsFrom-update_where :
    (p : UserRecord → Bool) (f : UserRecord → UserRecord) (lo hi : ℕ) (us : List UserRecord)
    → ((u : UserRecord) → (f u).id ≡ u.id)
    → IdsFrom lo us hi
    → IdsFrom lo (update_where p f us) hi
IdsFrom-update_where p f lo hi [] same i = i
IdsFrom-update_where p f lo hi (u ∷ us) same i =
    ground (arith, same u, IdsFrom-update_where p f (suc u.id) hi us same i.1)

pub IdsFrom-delete_where :
    (p : UserRecord → Bool) (lo hi : ℕ) (us : List UserRecord)
    → IdsFrom lo us hi
    → IdsFrom lo (delete_where p us) hi
IdsFrom-delete_where p lo hi [] i = i
IdsFrom-delete_where p lo hi (u ∷ us) i = ground (
  arith,
  IdsFrom-delete_where p (suc u.id) hi us i.1,
  IdsFrom-mono (suc u.id) lo hi (delete_where p us),
)

any-has_id_below :
    (k lo hi : ℕ) (us : List UserRecord)
    → IdsFrom lo us hi
    → k < lo
    → any_where (has_id k) us ≡ false
any-has_id_below k lo hi [] i h = refl
any-has_id_below k lo hi (u ∷ us) i h = ground (arith, any-has_id_below k (suc u.id) hi us i.1)

pub any-has_id_above :
    (k lo hi : ℕ) (us : List UserRecord)
    → IdsFrom lo us hi
    → hi ≤ k
    → any_where (has_id k) us ≡ false
any-has_id_above k lo hi [] i h = refl
any-has_id_above k lo hi (u ∷ us) i h =
    ground (arith, any-has_id_above k (suc u.id) hi us i.1, IdsFrom-le (suc u.id) hi us i.1)

-- One for a test that holds.
abbrev pub tally : Bool → ℕ
tally b = if b then 1 else 0

module _ (k : ℕ) (f : UserRecord → UserRecord) where
  pub update_where_missing :
      (us : List UserRecord) → any_where (has_id k) us ≡ false → update_where (has_id k) f us ≡ us
  update_where_missing [] h = refl
  update_where_missing (u ∷ us) h = ground (arith, update_where_missing us)

  -- An UPDATE of one key replaces one row in every count.
  pub count-update_where :
      (P : UserRecord → Bool) (lo hi : ℕ) (us : List UserRecord) (u : UserRecord)
      → IdsFrom lo us hi
      → find_where (has_id k) us ≡ some u
      → count_where P (update_where (has_id k) f us) + tally (P u)
        ≡ count_where P us + tally (P (f u))
  count-update_where P lo hi [] u i e = absurd (ground arith)
  count-update_where P lo hi (v ∷ us) u i e = elim (Bool-cases (v.id == k)) [
    | inl hit ↦
        let same : v ≡ u = ground arith in
        let below : k < suc v.id = ground arith in
        rw (hit, update_where_missing us (any-has_id_below k (suc v.id) hi us i.1 below), same)
          (omega arith)
    | inr miss ↦ rw miss (omega (arith, count-update_where P (suc v.id) hi us u i.1 (rw miss at e)))
  ]

  pub find-update_where :
      (us : List UserRecord) (u : UserRecord)
      → ((v : UserRecord) → (f v).id ≡ v.id)
      → find_where (has_id k) us ≡ some u
      → find_where (has_id k) (update_where (has_id k) f us) ≡ some (f u)
  find-update_where [] u same e = absurd (ground arith)
  find-update_where (v ∷ us) u same e = ground (arith, same v, find-update_where us u same)

module _ (k : ℕ) where
  pub delete_where_missing :
      (us : List UserRecord) → any_where (has_id k) us ≡ false → delete_where (has_id k) us ≡ us
  delete_where_missing [] h = refl
  delete_where_missing (u ∷ us) h = ground (arith, delete_where_missing us)

  -- A DELETE of one key takes one row out of every count.
  pub count-delete_where :
      (P : UserRecord → Bool) (lo hi : ℕ) (us : List UserRecord) (u : UserRecord)
      → IdsFrom lo us hi
      → find_where (has_id k) us ≡ some u
      → count_where P (delete_where (has_id k) us) + tally (P u) ≡ count_where P us
  count-delete_where P lo hi [] u i e = absurd (ground arith)
  count-delete_where P lo hi (v ∷ us) u i e = elim (Bool-cases (v.id == k)) [
    | inl hit ↦
        let same : v ≡ u = ground arith in
        let below : k < suc v.id = ground arith in
        rw (hit, delete_where_missing us (any-has_id_below k (suc v.id) hi us i.1 below), same)
          (omega arith)
    | inr miss ↦ rw miss (omega (arith, count-delete_where P (suc v.id) hi us u i.1 (rw miss at e)))
  ]
