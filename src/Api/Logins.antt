-- ===== src/Api/Logins.antt =====
-- What a login leaves in the database and answers (app/routers/auth.py, app/routers/deps.py).
use palworld_server_service.Common.{
  pos, ℕ, String, ◌≡◌, refl, ◌∙◌, ap, sym, ◌&&◌, none, some, List, [], ◌∷◌, ◌++◌, arith, ◌==◌,
  str_eq, eq_iff, if◌then◌else◌, find_where, update_where, find_where-true, Bool-cases,
  Option-cases, inl, inr, take,
}
use mathlib.Core.List.{reverse, reverse-append}
use palworld_server_service.Common.Outcome.{ok}
use palworld_server_service.Database.Models.{UserRecord, LoginAuditRecord}
use palworld_server_service.Database.Store.{Database}
use palworld_server_service.Database.Users.{
  has_id, has_username, get_user_by_username, row_to_user, update_user_last_login, stamp,
}
use palworld_server_service.Database.Records.{record_login_audit, list_login_audits, set_meta}
use palworld_server_service.Auth.Tokens.{generate_session_token}
use palworld_server_service.Auth.Bootstrap.{Server, Supply, acknowledge_bootstrap}
use palworld_server_service.Api.Deps.{Context}
use palworld_server_service.Api.Accounts.{
  logged_in, LoginResponse, accepted, failure_reason, login, accept_login,
}

pub login_state-users :
    (ctx : Context) (client_ip user_agent : String) (sup : Supply) (user : UserRecord) (s : Server)
    → (accept_login ctx client_ip user_agent sup user s).1.db.users
      ≡ update_where (has_id user.id) (stamp sup.now) s.db.users
unfolding acknowledge_bootstrap set_meta record_login_audit update_user_last_login
login_state-users ctx client_ip user_agent sup user s =
    elim (Bool-cases (s.bootstrap.is_pending && str_eq user.role "admin")) [
      | inl e ↦ rw e refl
      | inr e ↦ rw e refl
    ]

login_state-audits :
    (ctx : Context) (client_ip user_agent : String) (sup : Supply) (user : UserRecord) (s : Server)
    → (accept_login ctx client_ip user_agent sup user s).1.db.login_audit
      ≡ (record_login_audit user.username client_ip user_agent "SUCCESS" "" sup.now
          s.db).1.login_audit
unfolding acknowledge_bootstrap set_meta record_login_audit update_user_last_login
login_state-audits ctx client_ip user_agent sup user s =
    elim (Bool-cases (s.bootstrap.is_pending && str_eq user.role "admin")) [
      | inl e ↦ rw e refl
      | inr e ↦ rw e refl
    ]

newest :
    (rows : List LoginAuditRecord) (row : LoginAuditRecord)
    → take 1 (reverse (rows ++ row ∷ [])) ≡ row ∷ []
newest rows row = rw (reverse-append rows (row ∷ [])) refl

-- The newest row of the audit trail says what the login did.
pub login_audited :
    (ctx : Context) (username password client_ip user_agent : String) (sup : Supply) (s : Server)
    → let (reply, s') = login ctx username password client_ip user_agent sup s in
      let found = get_user_by_username username s.db in
      list_login_audits (pos 1) (pos 0) s'.db
      ≡ record {
        id = s.db.next_audit_id;
        username = elim (accepted ctx password found) [
          | none ↦ username
          | some user ↦ user.username
        ];
        timestamp = sup.now;
        ip_address = client_ip;
        user_agent = user_agent;
        status = elim (accepted ctx password found) [ none ↦ "FAILED" | some user ↦ "SUCCESS" ];
        failure_reason = elim (accepted ctx password found) [
          | none ↦ failure_reason found
          | some user ↦ ""
        ];
      }
        ∷ []
unfolding login list_login_audits record_login_audit update_user_last_login
login_audited ctx username password client_ip user_agent sup s =
    elim (Option-cases (accepted ctx password (get_user_by_username username s.db))) [
      | inl e ↦ rw e (newest s.db.login_audit _)
      | inr (user, e) ↦
          rw e (
            rw (login_state-audits ctx client_ip user_agent sup user s) (newest s.db.login_audit _))
    ]

-- The row that an UPDATE of last_login leaves in place of another.
abbrev pub stamped : ℕ → String → UserRecord → UserRecord
stamped k now row = if row.id == k then stamp now row else row

pub find-stamp :
    (name : String) (k : ℕ) (now : String) (us : List UserRecord) (row : UserRecord)
    → find_where (has_username name) us ≡ some row
    → find_where (has_username name) (update_where (has_id k) (stamp now) us)
      ≡ some (stamped k now row)
find-stamp name k now [] row h = absurd (ground arith)
find-stamp name k now (u ∷ us) row h = ground (arith, find-stamp name k now us row)

pub stamped-same :
    (k : ℕ) (now : String) (row : UserRecord)
    → let user = row_to_user (stamped k now row) in
      (user.id ≡ row.id)
      × (user.username ≡ row.username)
      × (user.role ≡ row.role)
      × (user.is_active ≡ row.is_active)
unfolding row_to_user
stamped-same k now row = elim (Bool-cases (row.id == k)) [
  | inl e ↦ rw e (refl, refl, refl, refl)
  | inr e ↦ rw e (refl, refl, refl, refl)
]

pub login_reply-token :
    (ctx : Context) (client_ip user_agent : String) (sup : Supply) (user : UserRecord) (s : Server)
    → (answer : LoginResponse) × ((accept_login ctx client_ip user_agent sup user s).0
        ≡ ok (logged_in answer))
      × (answer.token
          ≡ generate_session_token ctx.crypto user.username ctx.admin_password 86400 sup.now_us
              sup.nonce)
unfolding acknowledge_bootstrap set_meta record_login_audit generate_session_token
    update_user_last_login
login_reply-token ctx client_ip user_agent sup user s =
    elim (Bool-cases (s.bootstrap.is_pending && str_eq user.role "admin")) [
      | inl e ↦ rw e (_, refl, refl)
      | inr e ↦ rw e (_, refl, refl)
    ]

pub named_row :
    (name : String) (db : Database) (user : UserRecord)
    → get_user_by_username name db ≡ some user
    → (row : UserRecord) × (find_where (has_username name) db.users ≡ some row)
      × (row.id ≡ user.id)
      × (row.username ≡ name)
      × (user.username ≡ name)
      × (row.role ≡ user.role)
      × (row.is_active ≡ user.is_active)
unfolding get_user_by_username row_to_user
named_row name db user found = elim (Option-cases (find_where (has_username name) db.users)) [
  | inl f ↦ absurd (ground arith)
  | inr (row, f) ↦
      let is_named : row.username ≡ name =
        ground
          (arith, eq_iff row.username name, find_where-true (has_username name) db.users row f) in
      let same : row_to_user row ≡ user = ground arith in
      (
        row,
        f,
        ap (λ u. u.id) same,
        is_named,
        sym (ap (λ u. u.username) same) ∙ is_named,
        ap (λ u. u.role) same,
        ap (λ u. u.is_active) same,
      )
]
