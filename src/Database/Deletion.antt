-- ===== src/Database/Deletion.antt =====
-- app/database/db.py: what the deletion of a user leaves to be found by name.
use palworld_server_service.Common.{
  ℕ, ◌≡◌, refl, Bool, false, none, some, List, [], ◌∷◌, arith, ◌==◌, str_eq, eq_iff, any_where,
  find_where, delete_where, Bool-cases, inl, inr,
}
use palworld_server_service.Database.Models.{UserRecord}
use palworld_server_service.Database.Store.{Database}
use palworld_server_service.Database.Users.{
  has_id, has_username, get_user_by_id, get_user_by_username, row_to_user, delete_user,
}
use palworld_server_service.Database.Integrity.{IsConsistent}
use palworld_server_service.Database.Grants.{NamesDistinct}
use palworld_server_service.Database.Admins.{row_of}

find-absent :
    (p q : UserRecord → Bool) (us : List UserRecord)
    → any_where p us ≡ false
    → find_where p (delete_where q us) ≡ none
find-absent p q [] h = refl
find-absent p q (u ∷ us) h = ground (arith, find-absent p q us)

find-not :
    (p q : UserRecord → Bool) (us : List UserRecord) (row : UserRecord)
    → find_where q us ≡ some row
    → any_where p us ≡ false
    → p row ≡ false
find-not p q [] row found missing = absurd (ground arith)
find-not p q (u ∷ us) row found missing = ground (arith, find-not p q us row)

find_name-deleted :
    (k : ℕ) (us : List UserRecord) (row : UserRecord)
    → NamesDistinct us
    → find_where (has_id k) us ≡ some row
    → find_where (has_username row.username) (delete_where (has_id k) us) ≡ none
find_name-deleted k [] row distinct found = absurd (ground arith)
find_name-deleted k (u ∷ us) row (other, distinct) found = elim (Bool-cases (u.id == k)) [
  | inl hit ↦
      let same : u ≡ row = ground arith in
      rw (hit, find-absent (has_username row.username) (has_id k) us (rw⁻¹ same other)) refl
  | inr miss ↦
      let differs : str_eq row.username u.username ≡ false =
        find-not (has_username u.username) (has_id k) us row (rw miss at found) other in
      rw miss (
        ground (
          arith,
          eq_iff row.username u.username,
          eq_iff u.username row.username,
          find_name-deleted k us row distinct,
        ))
]

pub get_name-deleted :
    (k : ℕ) (db : Database) (existing : UserRecord)
    → IsConsistent db
    → get_user_by_id k db ≡ some existing
    → get_user_by_username existing.username (delete_user k db).1 ≡ none
unfolding get_user_by_username delete_user row_to_user
get_name-deleted k db existing c found =
    let (row, at, same) = row_of k db existing found in
    rw (same, find_name-deleted k db.users row c.names at) refl
