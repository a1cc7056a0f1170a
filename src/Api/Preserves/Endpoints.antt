-- ===== src/Api/Preserves/Endpoints.antt =====
-- Each endpoint of app/routers/auth.py keeps what its writes keep.
use palworld_server_service.Common.{
  ℕ, String, ◌≡◌, refl, Bool, true, false, Option, none, some, arith, ◌==◌, str_eq, not, ◌&&◌,
  Bool-cases, ◌⊎◌, inl, inr,
}
use palworld_server_service.Common.Outcome.{continue, ◌>>=◌, ◌>>◌}
use palworld_server_service.Common.Keeps.{
  Keeps, continue-keeps, Keeps-pure, Keeps-raise, Keeps-bind, Keeps-then,
}
use palworld_server_service.Database.Models.{UserRecord}
use palworld_server_service.Database.Store.{Database}
use palworld_server_service.Database.Users.{
  is_active_admin, UserUpdate, apply_update, update_user, get_user_by_id, get_user_by_username,
}
use palworld_server_service.Auth.Bootstrap.{Server, Supply, on_db}
use palworld_server_service.Api.Deps.{Context}
use palworld_server_service.Api.Accounts.{
  done, is_some, profile_of, accepted, login, register, create_new_user, UserCreateRequest,
  UserUpdateRequest, set_permissions, decide_login, acknowledge_on_admin, failure_reason,
}
use palworld_server_service.Api.Members.{
  update_found, update_role_found, role_only, delete_found, update_of, delete_existing_user,
  is_last_admin, demotes, deactivates, or_not_found, deleted,
}
use palworld_server_service.Api.Preserves.Writes.{Preserves}

module _ {P : Server → Type 0} (w : Preserves P) where
  pub profile_of-Keeps : (user : UserRecord) → Keeps P (profile_of user)
  profile_of-Keeps user = record { at = λ s g. g }

  pub login-Keeps :
      (ctx : Context) (username password client_ip user_agent : String) (sup : Supply)
      → Keeps P (login ctx username password client_ip user_agent sup)
  unfolding login
  login-Keeps ctx username password client_ip user_agent sup = record {
    at = λ s g.
        let found = get_user_by_username username s.db in
        (decide found (accepted ctx password found)).at s g;
  }
    where
      admin_ack : (user : UserRecord) → Keeps P (acknowledge_on_admin user)
      admin_ack user = record {
        at = λ s g. elim (Bool-cases (s.bootstrap.is_pending && str_eq user.role "admin")) [
          | inl ack ↦ rw ack (w.acknowledge_bootstrap.at s g)
          | inr skip ↦ rw skip g
        ];
      }

      decide :
          (found user : Option UserRecord)
          → Keeps P (decide_login ctx username client_ip user_agent sup found user)
      decide found none =
          Keeps-then _ _
            (w.record_login_audit username client_ip user_agent "FAILED" (failure_reason found)
              sup.now)
            (Keeps-raise _)
      decide found (some user) =
          Keeps-then _ _
            (w.record_login_audit user.username client_ip user_agent "SUCCESS" "" sup.now)
            (Keeps-then _ _ (w.update_user_last_login user.id sup.now)
              (Keeps-then _ _ (admin_ack user) (record { at = λ s g. g })))

  pub register-Keeps :
      (ctx : Context) (username password email : String) (sup : Supply)
      → Keeps P (register ctx username password email sup)
  unfolding register
  register-Keeps ctx username password email sup = record {
    at = λ s g. elim (Bool-cases (is_some (get_user_by_username username s.db))) [
      | inl taken ↦ rw taken g
      | inr free ↦ rw free (
          (Keeps-bind _ profile_of (w.create_account ctx username password email "viewer" sup)
              profile_of-Keeps).at
            s g)
    ];
  }

  pub create_new_user-Keeps :
      (ctx : Context) (req : UserCreateRequest) (sup : Supply)
      → Keeps P (create_new_user ctx req sup)
  unfolding create_new_user
  create_new_user-Keeps ctx req sup = record {
    at = λ s g. elim (Bool-cases (is_some (get_user_by_username req.username s.db))) [
      | inl taken ↦ rw taken g
      | inr free ↦ rw free (
          (Keeps-bind _ (λ user. set_permissions user.id req.permissions >> profile_of user)
              (w.create_account ctx req.username req.password req.email req.role sup)
              (λ user.
                Keeps-then _ _ (w.set_permissions user.id req.permissions)
                  (profile_of-Keeps user))).at
            s g)
    ];
  }

  kept_active :
      (up : UserUpdate) (existing : UserRecord) (db : Database)
      → is_last_admin existing db ≡ true
      → demotes up.role ≡ false
      → deactivates up.is_active ≡ false
      → is_active_admin (apply_update up existing) ≡ true
  unfolding apply_update
  kept_active up existing db last stays on = ground arith

  or_not_found-Keeps : (found : Option UserRecord) → Keeps P (or_not_found found)
  or_not_found-Keeps none = Keeps-raise _
  or_not_found-Keeps (some user) = Keeps-pure user

  pub update_found-Keeps :
      (ctx : Context) (k : ℕ) (req : UserUpdateRequest) (sup : Supply) (found : Option UserRecord)
      (s : Server)
      → get_user_by_id k s.db ≡ found
      → P s
      → P (update_found ctx k req sup found s).1
  update_found-Keeps ctx k req sup none s e g = g
  update_found-Keeps ctx k req sup (some existing) s e g =
      elim (Bool-cases (is_last_admin existing s.db && demotes req.role)) [
        | inl refused ↦ rw refused g
        | inr stays ↦ elim (Bool-cases (is_last_admin existing s.db && deactivates req.is_active)) [
          | inl refused ↦ rw (stays, refused) g
          | inr on ↦ rw (stays, on) (rest stays on)
        ]
      ]
    where
      up : UserUpdate
      up = update_of ctx req sup

      safe :
          (is_last_admin existing s.db && demotes req.role) ≡ false
          → (is_last_admin existing s.db && deactivates req.is_active) ≡ false
          → (is_last_admin existing s.db ≡ false)
            ⊎ (is_active_admin (apply_update up existing) ≡ true)
      safe stays on = elim (Bool-cases (is_last_admin existing s.db)) [
        | inl last ↦ inr (kept_active up existing s.db last (ground arith) (ground arith))
        | inr other ↦ inl other
      ]

      rest :
          (is_last_admin existing s.db && demotes req.role) ≡ false
          → (is_last_admin existing s.db && deactivates req.is_active) ≡ false
          → P
              (continue
                (on_db (update_user k up) s).0
                (λ found. or_not_found found >>= λ user.
                  set_permissions k req.permissions >> profile_of user)
                (on_db (update_user k up) s).1).1
      rest stays on =
          continue-keeps _ _ _
            (λ found. Keeps-bind (or_not_found found) _ (or_not_found-Keeps found) (λ user.
              Keeps-then _ _ (w.set_permissions k req.permissions) (profile_of-Keeps user)))
            (w.update_user k up s existing e (safe stays on) g)

  pub update_role_found-Keeps :
      (k : ℕ) (role : String) (found : Option UserRecord) (s : Server)
      → get_user_by_id k s.db ≡ found
      → P s
      → P (update_role_found k role found s).1
  update_role_found-Keeps k role none s e g = g
  update_role_found-Keeps k role (some existing) s e g =
      elim (Bool-cases (is_last_admin existing s.db && not (str_eq role "admin"))) [
        | inl refused ↦ rw refused g
        | inr allowed ↦ rw allowed (
            continue-keeps _ _ _
              (λ found.
                Keeps-bind (or_not_found found) _ (or_not_found-Keeps found) profile_of-Keeps)
              (w.update_user k (role_only role) s existing e (safe allowed) g))
      ]
    where
      safe :
          (is_last_admin existing s.db && not (str_eq role "admin")) ≡ false
          → (is_last_admin existing s.db ≡ false)
            ⊎ (is_active_admin (apply_update (role_only role) existing) ≡ true)
      safe allowed = elim (Bool-cases (is_last_admin existing s.db)) [
        | inl last ↦ inr (kept_active (role_only role) existing s.db last (ground arith) refl)
        | inr other ↦ inl other
      ]

  deleted-Keeps : (b : Bool) → Keeps P (deleted b)
  deleted-Keeps true = Keeps-pure done
  deleted-Keeps false = Keeps-raise _

  delete_found-Keeps :
      (k : ℕ) (found : Option UserRecord) (s : Server)
      → get_user_by_id k s.db ≡ found
      → P s
      → P (delete_found k found s).1
  delete_found-Keeps k none s e g = g
  delete_found-Keeps k (some existing) s e g = elim (Bool-cases (is_last_admin existing s.db)) [
    | inl last ↦ rw last g
    | inr other ↦
        rw other (continue-keeps _ _ _ deleted-Keeps (w.delete_user k s existing e other g))
  ]

  pub delete_existing_user-Keeps :
      (user : UserRecord) (k : ℕ) → Keeps P (delete_existing_user user k)
  unfolding delete_existing_user
  delete_existing_user-Keeps user k = record {
    at = λ s g. elim (Bool-cases (user.id == k)) [
      | inl self ↦ rw self g
      | inr other ↦ rw other (delete_found-Keeps k (get_user_by_id k s.db) s refl g)
    ];
  }
