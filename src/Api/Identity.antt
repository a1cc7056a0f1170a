-- ===== src/Api/Identity.antt =====
-- Who a request speaks for (app/routers/deps.py): where accepted users come from, and what ends
-- their sessions.
use palworld_server_service.Common.{
  ℕ, String, ◌≡◌, ◌≢◌, refl, ap, ◌∙◌, true, false, ◌&&◌, Option, none, some, [], ◌∷◌, arith, str_eq,
  Bool-cases, inl, inr, drop,
}
use palworld_server_service.Common.Text.{Text, codes, text_eq, starts_with, strip}
use palworld_server_service.Common.Outcome.{Outcome, ok, err, http}
use palworld_server_service.Database.Models.{UserRecord}
use palworld_server_service.Database.Store.{Database}
use palworld_server_service.Database.Users.{get_user_by_id, get_user_by_username, delete_user}
use palworld_server_service.Database.Integrity.{IsConsistent}
use palworld_server_service.Auth.Tokens.{verify_session_token}
use palworld_server_service.Api.Deps.{
  Request, Context, get_client_ip, is_local, basic_user, token_user, fallback_user,
  get_current_user, with_token, with_basic, after_bearer, active_only, username_user, verified_user,
  basic_decoded, before_colon, after_colon, pass_matches, or_empty, require_admin, synthetic_admin,
  or_unauthorized,
}
use palworld_server_service.Database.Deletion.{get_name-deleted}

-- The tokens that a request carries: behind Bearer, or as the cookie.
pub data Carries (r : Request) (token : Text) : Type 0 where
  bearer :
      starts_with (codes "Bearer ") (or_empty r.authorization) ≡ true
      → strip (drop 7 (or_empty r.authorization)) ≡ token
      → Carries r token
  cookie : r.pal_session_token ≡ some token → Carries r token

-- The credentials of a request for a name: a session token that verifies, or a Basic header with
-- the configured password.
pub data Credential (ctx : Context) (r : Request) (username : String) : Type 0 where
  session :
      (token : Text)
      → Carries r token
      → verify_session_token ctx.crypto token ctx.admin_password ctx.now_us ≡ ok (some username)
      → Credential ctx r username
  basic :
      (decoded : Text)
      → starts_with (codes "Basic ") (or_empty r.authorization) ≡ true
      → ctx.decode_basic (strip (drop 6 (or_empty r.authorization))) ≡ some decoded
      → text_eq (before_colon decoded) (codes "admin") ≡ true
      → pass_matches (after_colon decoded) ctx.admin_password ≡ true
      → username ≡ "admin"
      → Credential ctx r username

-- An active user of the database whom a credential of the request names.
abbrev pub Proven : Context → Request → Database → UserRecord → Type 0
Proven ctx r db user =
    (username : String) × (get_user_by_username username db ≡ some user)
    × (user.is_active ≡ true)
    × Credential ctx r username

module _ (ctx : Context) (r : Request) (db : Database) where
  active_only-some :
      (o : Option UserRecord) (user : UserRecord)
      → active_only o ≡ some user
      → (o ≡ some user) × (user.is_active ≡ true)
  active_only-some none user h = absurd (ground arith)
  active_only-some (some u) user h = (ground arith, ground arith)

  username_user-some :
      (o : Option String) (user : UserRecord)
      → username_user o db ≡ some user
      → (username : String) × (o ≡ some username)
        × (get_user_by_username username db ≡ some user)
        × (user.is_active ≡ true)
  username_user-some none user h = absurd (ground arith)
  username_user-some (some name) user h = elim (Bool-cases (str_eq name "")) [
    | inl e ↦ absurd (ground arith)
    | inr e ↦
        let (found, active) = active_only-some (get_user_by_username name db) user (rw e at h) in
        (name, refl, found, active)
  ]

  verified_user-some :
      (o : Outcome (Option String)) (user : UserRecord)
      → verified_user o db ≡ ok (some user)
      → (username : String) × (o ≡ ok (some username))
        × (get_user_by_username username db ≡ some user)
        × (user.is_active ≡ true)
  verified_user-some (err e) user h = absurd (ground arith)
  verified_user-some (ok named) user h =
      let (name, e, found, active) = username_user-some named user (ground arith) in
      (name, ap ok e, found, active)

  token_user-Proven :
      (token : Text) (user : UserRecord)
      → Carries r token
      → token_user ctx token db ≡ ok (some user)
      → Proven ctx r db user
  unfolding token_user
  token_user-Proven token user carried h =
      let (name, verified, found, active) = verified_user-some _ user h in
      (name, found, active, session token carried verified)

  basic_decoded-Proven :
      (o : Option Text) (user : UserRecord)
      → starts_with (codes "Basic ") (or_empty r.authorization) ≡ true
      → ctx.decode_basic (strip (drop 6 (or_empty r.authorization))) ≡ o
      → basic_decoded ctx o db ≡ some user
      → Proven ctx r db user
  basic_decoded-Proven none user scheme e h = absurd (ground arith)
  basic_decoded-Proven (some decoded) user scheme e h =
      elim (Bool-cases (
        text_eq (before_colon decoded) (codes "admin")
        && pass_matches (after_colon decoded) ctx.admin_password)) [
          | inl m ↦
              let (found, active) =
                active_only-some (get_user_by_username "admin" db) user (ground arith) in
              ("admin", found, active, basic decoded scheme e (ground arith) (ground arith) refl)
          | inr m ↦ absurd (ground arith)
        ]

  fallback-remote :
      (user : UserRecord) → is_local (get_client_ip r) ≡ false → fallback_user ctx r db ≢ ok user
  unfolding fallback_user
  fallback-remote user remote h = ground (arith)

  with_token-Proven :
      (token : Text) (user : UserRecord)
      → Carries r token
      → is_local (get_client_ip r) ≡ false
      → with_token ctx token r db ≡ ok user
      → Proven ctx r db user
  with_token-Proven [] user carried remote h = absurd (fallback-remote user remote h)
  with_token-Proven (c ∷ token) user carried remote h =
      token_user-Proven (c ∷ token) user carried (authorized (token_user ctx (c ∷ token) db) h)
    where
      authorized :
          (o : Outcome (Option UserRecord)) → or_unauthorized o ≡ ok user → o ≡ ok (some user)
      authorized (err e) h = absurd (ground arith)
      authorized (ok none) h = absurd (ground arith)
      authorized (ok (some u)) h = ground arith

  with_basic-Proven :
      (user : UserRecord) (o : Option UserRecord)
      → starts_with (codes "Basic ") (or_empty r.authorization) ≡ true
      → is_local (get_client_ip r) ≡ false
      → basic_user ctx (or_empty r.authorization) db ≡ o
      → with_basic ctx o r db ≡ ok user
      → Proven ctx r db user
  unfolding basic_user
  with_basic-Proven user none scheme remote e h = absurd (fallback-remote user remote h)
  with_basic-Proven user (some u) scheme remote e h =
      basic_decoded-Proven _ user scheme refl (e ∙ ground arith)

  after_bearer-Proven :
      (o : Option Text) (user : UserRecord)
      → r.pal_session_token ≡ o
      → is_local (get_client_ip r) ≡ false
      → after_bearer ctx (or_empty r.authorization) o r db ≡ ok user
      → Proven ctx r db user
  after_bearer-Proven (some token) user e remote h =
      with_token-Proven token user (cookie e) remote h
  after_bearer-Proven none user e remote h =
      elim (Bool-cases (starts_with (codes "Basic ") (or_empty r.authorization))) [
        | inl m ↦ with_basic-Proven user _ m remote refl (rw m at h)
        | inr m ↦ absurd (fallback-remote user remote (rw m at h))
      ]

  -- A request whose client address does not count as local is accepted only as an active user of
  -- the database whom a credential of that request names: a token behind Bearer or in the cookie that
  -- verifies under the configured key, or, for "admin", Basic credentials with the configured
  -- password.
  pub get_current_user-Proven :
      (user : UserRecord)
      → is_local (get_client_ip r) ≡ false
      → get_current_user ctx r db ≡ ok user
      → Proven ctx r db user
  unfolding get_current_user
  get_current_user-Proven user remote h =
      let header = or_empty r.authorization in
      elim (Bool-cases (starts_with (codes "Bearer ") header)) [
        | inl m ↦ with_token-Proven (strip (drop 7 header)) user (bearer m refl) remote (rw m at h)
        | inr m ↦ after_bearer-Proven r.pal_session_token user refl remote (rw m at h)
      ]

-- The client address is read off headers that any client can send: with cf-connecting-ip set to
-- 127.0.0.1 and no credential, a request from any peer passes the administrator check, as the
-- stand-in record, where the account "admin" is missing or disabled.
pub spoofed_address_trusted :
    (ctx : Context) (r : Request) (db : Database)
    → r.authorization ≡ none
    → r.pal_session_token ≡ none
    → r.cf_connecting_ip ≡ some (codes "127.0.0.1")
    → active_only (get_user_by_username "admin" db) ≡ none
    → require_admin ctx r db ≡ ok (synthetic_admin ctx.now)
unfolding require_admin get_current_user fallback_user get_client_ip starts_with is_local text_eq
spoofed_address_trusted ctx r db a t c missing = rw (a, t, c, missing) refl

-- Deleting a user ends its sessions.

-- After a user of a consistent database is deleted, a request with no Authorization header whose
-- session cookie verifies for that user's name is answered 401, from whatever address it comes.
pub deleted_user_rejected :
    (ctx : Context) (r : Request) (k : ℕ) (db : Database) (existing : UserRecord) (token : Text)
    → IsConsistent db
    → get_user_by_id k db ≡ some existing
    → r.authorization ≡ none
    → r.pal_session_token ≡ some token
    → token ≢ []
    → verify_session_token ctx.crypto token ctx.admin_password ctx.now_us
      ≡ ok (some existing.username)
    → get_current_user ctx r (delete_user k db).1 ≡ err (http 401)
unfolding get_current_user
deleted_user_rejected ctx r k db existing [] c found no_header carried ne verified =
    absurd (ne refl)
deleted_user_rejected ctx r k db existing (d ∷ token) c found no_header carried ne verified =
    let gone : token_user ctx (d ∷ token) (delete_user k db).1 ≡ ok none =
      unfold token_user in rw (verified, get_name-deleted k db existing c found) (ground arith) in
    rw (no_header, carried, gone) (unfold starts_with in refl)
