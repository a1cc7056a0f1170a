-- ===== src/Examples.antt =====
-- Concrete requests and servers, and each theorem about accounts and sessions at one of them.
pub mod Toy
pub mod Members
pub mod Reboots
pub mod Calls
pub mod Game
pub mod Samples
pub mod Storage
pub mod Fleet
pub mod Notices
pub mod Portal
use palworld_server_service.Common.{
  ℕ, String, ◌≡◌, refl, Bool, true, false, ◌||◌, Option, none, some, List, [], ◌∷◌, ◌++◌, arith,
  str_eq, eq_iff, ◌≢◌, ◌≤◌, ◌==◌,
}
use palworld_server_service.Common.Text.{split_on, Text, codes, text_eq, starts_with}
use palworld_server_service.Common.Outcome.{ok, err, http}
use palworld_server_service.Database.Models.{
  UserRecord, viewer_permissions, default_role_permissions,
}
use palworld_server_service.Database.Users.{
  get_user_by_username, get_user_by_id, get_user_permissions, row_to_user, create_user, count_users,
  set_user_permissions, delete_user, has_id,
}
use palworld_server_service.Database.Store.{Database}
use palworld_server_service.Database.Records.{get_meta, list_login_audits}
use palworld_server_service.Database.Permissions.{set_user_permissions_exact}
use palworld_server_service.Auth.Crypto.{Claims}
use palworld_server_service.Auth.Tokens.{
  hash_password, generate_session_token, verify_session_token, verify_password,
}
use palworld_server_service.Auth.Access.{contains, has_permission}
use palworld_server_service.Auth.TokenLaws.{
  generate_session_token_lifetime, verify_session_token_authentic,
}
use palworld_server_service.Auth.Bootstrap.{
  Server, Supply, bootstrap_admin_user, set_bootstrap_pending,
}
use palworld_server_service.Api.Deps.{
  token_user, require_permission, fallback_user, Request, Context, get_current_user, require_admin,
  synthetic_admin, get_client_ip, is_local,
}
use palworld_server_service.Api.Accounts.{login, accepted, register, LoginResponse, logged_in}
use palworld_server_service.Api.Members.{update_user_role}
use palworld_server_service.Api.Serve.{
  serve, start, run, request, sign_up, delete, ack_bootstrap, bootstrap_credentials, Event, restart,
}
use palworld_server_service.Api.LastAdmin.{IsGoverned, run-IsGoverned}
use palworld_server_service.Api.FirstStart.{fresh, start-fresh-IsGoverned, start-fresh-pending}
use palworld_server_service.Api.Sealed.{bootstrap_credentials_sealed}
use palworld_server_service.Api.Rights.{register_least_privilege, update_user_role_rights}
use palworld_server_service.Api.Identity.{
  get_current_user-Proven, Proven, spoofed_address_trusted, deleted_user_rejected,
}
use palworld_server_service.Api.Feedback.{
  FeedbackSubmitRequest, render_feedback_markdown, submit_feedback, list_feedback_submissions,
}
use palworld_server_service.Api.Disclosed.{feedback_disclosed}
use palworld_server_service.Api.Sessions.{login_then_request}
use palworld_server_service.Api.Logins.{login_audited}
use palworld_server_service.Examples.Toy.{toy, toy-IsLawful}

abbrev pub desk : Context
desk = record {
  crypto = toy;
  decode_basic = λ header. none;
  admin_password = "secret";
  now_us = 2000000;
  now = "2026-01-01";
}

abbrev pub supply : Supply
supply = record {
  now = "2026-01-01";
  now_us = 1000000;
  salt = "salt";
  nonce = "nonce";
  password = "generated";
  export_works = true;
}

abbrev pub remote : Request
remote = record {
  authorization = none;
  pal_session_token = none;
  cf_connecting_ip = none;
  x_forwarded_for = none;
  x_real_ip = none;
  client_host = some (codes "203.0.113.7");
}

abbrev pub local : Request
local = record remote { client_host = some (codes "127.0.0.1") }

-- The first process, with a configured password.
abbrev pub first : Server
first = start toy (some "pw") false supply fresh

abbrev history : List Event
history =
    request desk remote supply (sign_up "ann" "pass" "ann@example.org")
    ∷ request desk local supply (delete 1)
    ∷ restart toy none false supply
    ∷ []

run-IsGoverned_example : IsGoverned (run history first)
run-IsGoverned_example =
    run-IsGoverned history first (start-fresh-IsGoverned toy (some "pw") false supply)

bootstrap_credentials_sealed_example :
    (serve desk remote supply bootstrap_credentials (
      run
        (restart toy none false supply ∷ [])
        (serve desk remote supply ack_bootstrap (start toy none true supply fresh)).1)).0
    ≡ err (http 404)
unfolding start bootstrap_admin_user get_user_by_username count_users hash_password create_user
    get_user_by_id set_bootstrap_pending get_meta
bootstrap_credentials_sealed_example =
    bootstrap_credentials_sealed desk desk remote remote supply supply
      (start toy none true supply fresh) (restart toy none false supply ∷ []) refl

abbrev pub admin : UserRecord
admin = record {
  id = 1;
  username = "admin";
  password_hash = "pw";
  salt = "salt";
  email = "admin@localhost";
  role = "admin";
  is_active = true;
  created_at = "2026-01-01";
  last_login = none;
}

abbrev issued : Text
issued = generate_session_token toy "admin" "secret" 86400 1000000 "nonce"

abbrev with_cookie : Request
with_cookie = record remote { pal_session_token = some issued }

admin_named : ◌≢◌ {A = String} "admin" ""
admin_named = ground (arith, eq_iff "admin" "")

login_then_request_example :
    (answer : LoginResponse) × (user' : UserRecord) × ((login desk "admin" "pw" "203.0.113.7" "curl"
        supply first).0
      ≡ ok (logged_in answer))
    × (some issued ≡ some answer.token
        → get_current_user desk with_cookie
            (login desk "admin" "pw" "203.0.113.7" "curl" supply first).1.db
          ≡ ok user')
    × (user'.id ≡ 1)
    × (user'.username ≡ "admin")
    × (user'.role ≡ "admin")
unfolding start bootstrap_admin_user get_user_by_username count_users hash_password create_user
    get_user_by_id row_to_user accepted verify_password
login_then_request_example =
    login_then_request desk "admin" "pw" "203.0.113.7" "curl" supply first admin with_cookie 2000000
      "2026-01-01" toy-IsLawful (omega arith) admin_named refl refl refl

generate_session_token_lifetime_example :
    verify_session_token toy issued "secret" 86402000000 ≡ ok none
generate_session_token_lifetime_example =
    generate_session_token_lifetime toy toy-IsLawful "admin" "secret" "nonce" 86400 1000000
      86402000000 admin_named

verify_session_token_authentic_example :
    (p : Text) × (claims : Claims) × (exp : ℕ) × (issued ≡ p ++ b'.' ∷ toy.hmac_b64 "secret" p)
    × (toy.decode_claims p ≡ some claims)
    × (claims.sub ≡ some "admin")
    × (claims.exp ≡ some exp)
    × (2000000 ≤ exp)
verify_session_token_authentic_example =
    verify_session_token_authentic toy issued "secret" "admin" 2000000 (
      generate_session_token_lifetime toy toy-IsLawful "admin" "secret" "nonce" 86400 1000000
        2000000 admin_named)

get_current_user-Proven_example : Proven desk with_cookie first.db admin
unfolding start bootstrap_admin_user get_user_by_username count_users hash_password create_user
    get_user_by_id row_to_user get_current_user starts_with token_user verify_session_token
    generate_session_token split_on text_eq is_local get_client_ip
get_current_user-Proven_example = get_current_user-Proven desk with_cookie first.db admin refl refl

abbrev spoofed : Request
spoofed = record remote { cf_connecting_ip = some (codes "127.0.0.1") }

spoofed_address_trusted_example :
    require_admin desk spoofed fresh.db ≡ ok (synthetic_admin "2026-01-01")
unfolding get_user_by_username
spoofed_address_trusted_example = spoofed_address_trusted desk spoofed fresh.db refl refl refl refl

not_empty : (c : ℕ) (t : Text) → (c ∷ t) ≢ []
not_empty c t = ground arith

deleted_user_rejected_example :
    get_current_user desk with_cookie (delete_user 1 first.db).1 ≡ err (http 401)
unfolding start bootstrap_admin_user get_user_by_username count_users hash_password create_user
    get_user_by_id row_to_user generate_session_token
deleted_user_rejected_example =
    deleted_user_rejected desk with_cookie 1 first.db admin issued
      (start-fresh-IsGoverned toy (some "pw") false supply).consistent refl refl refl
      (not_empty _ _)
      (generate_session_token_lifetime toy toy-IsLawful "admin" "secret" "nonce" 86400 1000000
        2000000 admin_named)
