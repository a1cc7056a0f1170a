-- ===== src/Api/Rights.antt =====
-- What accounts may do after registration and after a change of role (app/routers/auth.py).
use palworld_server_service.Common.{
  ℕ, String, ◌≡◌, ◌≢◌, refl, ◌∙◌, true, false, ◌||◌, ◌&&◌, not, Option, none, some, List, arith,
  ◌==◌, str_eq, eq_iff, if◌then◌else◌,
}
use palworld_server_service.Common.Outcome.{◌>>=◌}
use palworld_server_service.Database.Models.{
  UserRecord, default_role_permissions, viewer_permissions,
}
use palworld_server_service.Database.Store.{Database}
use palworld_server_service.Database.Users.{
  get_user_by_id, get_user_by_username, get_user_permissions, updated, update_user, inserted,
  with_user, role_changes, apply_update, row_to_user,
}
use palworld_server_service.Database.Integrity.{IsConsistent}
use palworld_server_service.Database.Permissions.{contains-get_user_permissions, any-grants-regrant}
use palworld_server_service.Database.Tables.{find-update_where}
use palworld_server_service.Database.Admins.{row_of}
use palworld_server_service.Database.Creation.{
  create_user_new, found_by_username, contains-created, free_of_missing,
}
use palworld_server_service.Auth.Tokens.{hash_password, verify_password}
use palworld_server_service.Auth.Access.{contains, has_permission}
use palworld_server_service.Auth.Bootstrap.{Server, Supply}
use palworld_server_service.Api.Deps.{Context}
use palworld_server_service.Api.Accounts.{accepted, register, profile_of}
use palworld_server_service.Api.Members.{
  or_not_found, update_user_role, update_role_found, role_only, is_last_admin,
}

no_star : (role : String) → contains "*" (default_role_permissions role) ≡ false
unfolding default_role_permissions
no_star role = ground arith

-- A user whose rows are the role's defaults may do what the role may do.
pub has_permission-defaults :
    (role : String) (perms : List String) (p : String)
    → ((q : String) → contains q perms ≡ contains q (default_role_permissions role))
    → has_permission role perms p
      ≡ (str_eq role "admin" || contains p (default_role_permissions role))
unfolding has_permission
has_permission-defaults role perms p same = rw (same "*", same p, no_star role) (ground arith)

register-eq :
    (ctx : Context) (username password email : String) (sup : Supply) (s : Server)
    → IsConsistent s.db
    → get_user_by_username username s.db ≡ none
    → let row =
        inserted username
          (ctx.crypto.pbkdf2 password sup.salt)
          sup.salt
          email
          "viewer"
          true
          sup.now
          s.db in
      (register ctx username password email sup s).1 ≡ record s { db = with_user row s.db }
unfolding register hash_password
register-eq ctx username password email sup s c free = rw (
  free,
  create_user_new username (ctx.crypto.pbkdf2 password sup.salt) sup.salt email "viewer" true
      sup.now s.db c (free_of_missing username s.db free),
)

-- Over a consistent database, a registration under a free name makes an active viewer that may do
-- what viewers may do and nothing else, and that can log in with the password that it gave.
pub register_least_privilege :
    (ctx : Context) (username password email : String) (sup : Supply) (s : Server) (p : String)
    → IsConsistent s.db
    → get_user_by_username username s.db ≡ none
    → let s' = (register ctx username password email sup s).1 in
      (user : UserRecord) × (get_user_by_username username s'.db ≡ some user)
      × (user.role ≡ "viewer")
      × (accepted ctx password (some user) ≡ some user)
      × (has_permission user.role (get_user_permissions user.id s'.db) p
          ≡ contains p viewer_permissions)
register_least_privilege ctx username password email sup s p c free =
    let row =
      inserted username (ctx.crypto.pbkdf2 password sup.salt) sup.salt email "viewer" true sup.now
        s.db in
    let free' = free_of_missing username s.db free in
    rw (register-eq ctx username password email sup s c free) (
      row,
      found_by_username username _ _ email "viewer" true sup.now s.db free',
      refl,
      unfold accepted verify_password hash_password in
          ground (
            arith,
            eq_iff (ctx.crypto.pbkdf2 password sup.salt) (ctx.crypto.pbkdf2 password sup.salt),
          ),
      has_permission-defaults "viewer" _ p
            (λ q. contains-created username _ _ email "viewer" true sup.now s.db q c)
          ∙ unfold default_role_permissions in refl,
    )

-- A change of role that the endpoint lets through.
role-state :
    (k : ℕ) (role : String) (existing : UserRecord) (s : Server)
    → (is_last_admin existing s.db && not (str_eq role "admin")) ≡ false
    → get_user_by_id k s.db ≡ some existing
    → (update_role_found k role (some existing) s).1.db ≡ updated k (role_only role) existing s.db
unfolding update_user
role-state k role existing s allowed found =
    rw (allowed, found) (after (get_user_by_id k (updated k (role_only role) existing s.db)) _)
  where
    after : (o : Option UserRecord) (t : Server) → ((or_not_found o >>= profile_of) t).1.db ≡ t.db
    after none t = refl
    after (some user) t = refl

get-role_only :
    (k : ℕ) (role : String) (existing : UserRecord) (db : Database)
    → get_user_by_id k db ≡ some existing
    → (user : UserRecord) × (get_user_by_id k (updated k (role_only role) existing db) ≡ some user)
      × (user.role ≡ role)
unfolding get_user_by_id apply_update row_to_user
get-role_only k role existing db found =
    let (row, at, same) = row_of k db existing found in
    (
      row_to_user (apply_update (role_only role) row),
      rw (find-update_where k (apply_update (role_only role)) db.users row (λ v. refl) at) refl,
      refl,
    )

contains-role_only :
    (j k : ℕ) (role p : String) (existing : UserRecord) (db : Database)
    → role ≢ existing.role
    → contains p (get_user_permissions j (updated k (role_only role) existing db)) ≡ (
        if k == j
        then contains p (default_role_permissions role)
        else contains p (get_user_permissions j db))
contains-role_only j k role p existing db ne =
    contains-get_user_permissions j p _
    ∙ rw (changes) (
        any-grants-regrant j k p (default_role_permissions role) db.user_permissions
        ∙ rw (contains-get_user_permissions j p db) refl)
  where
    changes : role_changes (some role) existing.role ≡ true
    changes = ground (arith, eq_iff role existing.role)

-- After a change to another role that is not refused, the user has the new role and may do exactly
-- what that role may do by default: permissions granted before are gone. Other users' permissions
-- stay as they were.
pub update_user_role_rights :
    (k : ℕ) (role : String) (s : Server) (existing : UserRecord) (p : String)
    → get_user_by_id k s.db ≡ some existing
    → (is_last_admin existing s.db && not (str_eq role "admin")) ≡ false
    → role ≢ existing.role
    → let s' = (update_user_role k role s).1 in
      (user : UserRecord) × (get_user_by_id k s'.db ≡ some user)
      × (user.role ≡ role)
      × (has_permission user.role (get_user_permissions k s'.db) p
          ≡ (str_eq role "admin" || contains p (default_role_permissions role)))
      × ((j : ℕ)
          → j ≢ k
          → contains p (get_user_permissions j s'.db) ≡ contains p (get_user_permissions j s.db))
unfolding update_user_role
update_user_role_rights k role s existing p found allowed ne =
    let (user, at, has) = get-role_only k role existing s.db found in
    rw (found, role-state k role existing s allowed found)
      (
        user,
        at,
        has,
        has_permission-defaults user.role _ p
              (λ q. contains-role_only k k role q existing s.db ne ∙ rw has (ground arith))
            ∙ rw has refl,
        λ j other. contains-role_only j k role p existing s.db ne ∙ ground arith,
      )
