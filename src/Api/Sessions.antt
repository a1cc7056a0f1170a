-- ===== src/Api/Sessions.antt =====
-- From a login to the requests that its token carries (app/routers/auth.py, app/routers/deps.py).
use palworld_server_service.Common.{
  ℕ, ◌+◌, ◌*◌, ◌/◌, ◌≤◌, String, ◌≡◌, ◌≢◌, refl, ◌∙◌, true, none, some, [], ◌∷◌, ◌++◌, arith,
  eq_iff, find_where,
}
use palworld_server_service.Common.Text.{Text, starts_with}
use palworld_server_service.Common.Outcome.{ok}
use palworld_server_service.Database.Models.{UserRecord}
use palworld_server_service.Database.Store.{Database}
use palworld_server_service.Database.Users.{has_username, get_user_by_username, row_to_user}
use palworld_server_service.Auth.Crypto.{IsLawful}
use palworld_server_service.Auth.Tokens.{second, generate_session_token}
use palworld_server_service.Auth.TokenLaws.{generate_session_token_lifetime}
use palworld_server_service.Auth.Bootstrap.{Server, Supply}
use palworld_server_service.Api.Deps.{Request, Context, get_current_user, token_user}
use palworld_server_service.Api.Accounts.{logged_in, LoginResponse, accepted, login, accept_login}
use palworld_server_service.Api.Logins.{
  find-stamp, login_reply-token, login_state-users, named_row, stamped, stamped-same,
}

cookie_user :
    (ctx : Context) (r : Request) (db : Database) (user : UserRecord) (token : Text)
    → token ≢ []
    → r.authorization ≡ none
    → r.pal_session_token ≡ some token
    → token_user ctx token db ≡ ok (some user)
    → get_current_user ctx r db ≡ ok user
unfolding get_current_user starts_with
cookie_user ctx r db user [] ne no_header carried named = absurd (ne refl)
cookie_user ctx r db user (c ∷ token) ne no_header carried named =
    rw (no_header, carried, named) refl

issued_user :
    (ctx : Context) (name who nonce : String) (issued : ℕ) (db : Database) (user : UserRecord)
    → IsLawful ctx.crypto
    → ctx.now_us ≤ (issued / second + 86400) * second
    → name ≢ ""
    → who ≡ name
    → get_user_by_username name db ≡ some user
    → user.is_active ≡ true
    → token_user ctx
        (generate_session_token ctx.crypto who ctx.admin_password 86400 issued nonce)
        db
      ≡ ok (some user)
unfolding token_user
issued_user ctx name who nonce issued db user law fresh named same found active =
    rw
      (
        same,
        generate_session_token_lifetime ctx.crypto law name ctx.admin_password nonce 86400 issued
            ctx.now_us named,
      )
      (ground (arith, fresh, eq_iff name ""))

found_after :
    (ctx : Context) (username client_ip user_agent : String) (sup : Supply) (s : Server)
    → (user row : UserRecord) → find_where (has_username username) s.db.users ≡ some row
    → get_user_by_username username (accept_login ctx client_ip user_agent sup user s).1.db
      ≡ some (row_to_user (stamped user.id sup.now row))
unfolding get_user_by_username
found_after ctx username client_ip user_agent sup s user row at =
    rw
      (
        login_state-users ctx client_ip user_agent sup user s,
        find-stamp username user.id sup.now s.db.users row at,
      )
      refl

accepted-active :
    (ctx : Context) (password : String) (user : UserRecord)
    → accepted ctx password (some user) ≡ some user
    → user.is_active ≡ true
unfolding accepted
accepted-active ctx password user taken = ground arith

token-ne :
    (ctx : Context) (who key nonce : String) (issued : ℕ)
    → generate_session_token ctx.crypto who key 86400 issued nonce ≢ []
unfolding generate_session_token
token-ne ctx who key nonce issued = not_empty _ _
  where
    not_empty : (p q : Text) → (p ++ b'.' ∷ q) ≢ []
    not_empty [] q = ground arith
    not_empty (c ∷ p) q = ground arith

-- Over lawful hashing and encoding, a login that is accepted for a user whose name is not empty
-- returns a token. A request that sends the token back as the session cookie, with no
-- Authorization header and no later than a day after the second of issue, is taken for the account
-- that logged in, with the role it had: the login is the only step between.
pub login_then_request :
    (ctx : Context) (username password client_ip user_agent : String) (sup : Supply) (s : Server)
    → (user : UserRecord) (r : Request) (later : ℕ) (today : String) → IsLawful ctx.crypto
    → later ≤ (sup.now_us / second + 86400) * second
    → username ≢ ""
    → get_user_by_username username s.db ≡ some user
    → accepted ctx password (some user) ≡ some user
    → r.authorization ≡ none
    → let ctx' = record ctx { now_us = later; now = today } in
      let (reply, s') = login ctx username password client_ip user_agent sup s in
      (answer : LoginResponse) × (user' : UserRecord) × (reply ≡ ok (logged_in answer))
      × (r.pal_session_token ≡ some answer.token → get_current_user ctx' r s'.db ≡ ok user')
      × (user'.id ≡ user.id)
      × (user'.username ≡ username)
      × (user'.role ≡ user.role)
unfolding login
login_then_request ctx username password client_ip user_agent sup s user r later today law fresh
      named found taken no_header =
    let (answer, replied, issued) = login_reply-token ctx client_ip user_agent sup user s in
    let (row, at, row_id, row_name, user_name, row_role, row_active) =
      named_row username s.db user found in
    let (same_id, same_name, same_role, same_active) = stamped-same user.id sup.now row in
    let active : user.is_active ≡ true = accepted-active ctx password user taken in
    rw (found, taken)
      (
        answer,
        row_to_user (stamped user.id sup.now row),
        replied,
        λ carried.
            cookie_user _ r _ _ answer.token (rw issued (token-ne ctx _ _ _ _)) no_header carried (
              rw issued (
                issued_user _ username user.username sup.nonce sup.now_us _ _ law fresh named
                  user_name (found_after ctx username client_ip user_agent sup s user row at)
                  (same_active ∙ row_active ∙ active))),
        same_id ∙ row_id,
        same_name ∙ row_name,
        same_role ∙ row_role,
      )
