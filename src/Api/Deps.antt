-- ===== src/Api/Deps.antt =====
-- The request-scoped dependencies of app/routers/deps.py. Text of a request is Latin-1, as the
-- framework decodes headers. A header that is absent is `none`; names are compared in lower case by
-- the framework.
use palworld_server_service.Common.{
  ℕ, String, Bool, true, false, ◌&&◌, ◌||◌, Option, none, some, List, [], ◌∷◌, drop, ◌==◌, str_eq,
  if◌then◌else◌,
}
use palworld_server_service.Common.Text.{Text, codes, text_eq, split_on, strip, starts_with}
use palworld_server_service.Common.Outcome.{Outcome, ok, err, http}
use palworld_server_service.Database.Models.{UserRecord}
use palworld_server_service.Database.Store.{Database}
use palworld_server_service.Database.Users.{get_user_by_username, get_user_permissions}
use palworld_server_service.Auth.Crypto.{Crypto}
use palworld_server_service.Auth.Tokens.{verify_session_token}
use palworld_server_service.Auth.Access.{has_permission}

pub record Request : Type 0 where
  pub authorization : Option Text
  pub pal_session_token : Option Text
  pub cf_connecting_ip : Option Text
  pub x_forwarded_for : Option Text
  pub x_real_ip : Option Text
  -- request.client.host, where there is a client.
  pub client_host : Option Text

abbrev pub loopback_default : Text
loopback_default = codes "127.0.0.1"

-- request.client and request.client.host
abbrev peer_ip : Option Text → Text
peer_ip none = loopback_default
peer_ip (some []) = loopback_default
peer_ip (some (c ∷ host)) = c ∷ host

abbrev first_part : List Text → Text
first_part [] = []
first_part (p ∷ ps) = p

abbrev ip_after_forwarded : Option Text → Option Text → Text
ip_after_forwarded (some ip) client_host = ip
ip_after_forwarded none client_host = peer_ip client_host

abbrev ip_after_cf : Option Text → Option Text → Option Text → Text
ip_after_cf (some hops) x_real_ip client_host = strip (first_part (split_on b',' hops))
ip_after_cf none x_real_ip client_host = ip_after_forwarded x_real_ip client_host

abbrev ip_of : Option Text → Option Text → Option Text → Option Text → Text
ip_of (some ip) x_forwarded_for x_real_ip client_host = ip
ip_of none x_forwarded_for x_real_ip client_host = ip_after_cf x_forwarded_for x_real_ip client_host

unfoldable pub get_client_ip : Request → Text
get_client_ip r = ip_of r.cf_connecting_ip r.x_forwarded_for r.x_real_ip r.client_host

-- client_ip in ("127.0.0.1", "::1", "testclient", "localhost")
unfoldable pub is_local : Text → Bool
is_local ip =
    text_eq ip (codes "127.0.0.1")
    || (text_eq ip (codes "::1")
        || (text_eq ip (codes "testclient") || text_eq ip (codes "localhost")))

-- The configuration that authentication reads, the decoders that the code takes from elsewhere
-- (`decode_basic` is base64 and UTF-8, `none` where either fails), and the clock.
pub record Context : Type 0 where
  pub crypto : Crypto
  pub decode_basic : Text → Option Text
  pub admin_password : String
  pub now_us : ℕ
  pub now : String

abbrev pub or_empty : Option Text → Text
or_empty none = []
or_empty (some t) = t

abbrev pub active_only : Option UserRecord → Option UserRecord
active_only none = none
active_only (some user) = if user.is_active then some user else none

-- The record that stands in for a missing or disabled admin.
abbrev pub synthetic_admin : String → UserRecord
synthetic_admin now = record {
  id = 1;
  username = "admin";
  password_hash = "";
  salt = "";
  email = "admin@localhost";
  role = "admin";
  is_active = true;
  created_at = now;
  last_login = none;
}

abbrev pub before_colon : Text → Text
before_colon [] = []
before_colon (c ∷ t) = let rest = before_colon t in if c == b':' then [] else c ∷ rest

-- What follows the first colon; `none` where there is none.
abbrev pub after_colon : Text → Option Text
after_colon [] = none
after_colon (c ∷ t) = let rest = after_colon t in if c == b':' then some t else rest

abbrev pub pass_matches : Option Text → String → Bool
pass_matches none secret = false
pass_matches (some pass_part) secret = text_eq pass_part (codes secret)

abbrev pub basic_decoded : Context → Option Text → Database → Option UserRecord
basic_decoded ctx none db = none
basic_decoded ctx (some decoded) db =
    if text_eq (before_colon decoded) (codes "admin")
      && pass_matches (after_colon decoded) ctx.admin_password
    then active_only (get_user_by_username "admin" db)
    else none

-- The Basic branch: the user it returns at once, or `none` to go on.
unfoldable pub basic_user : Context → Text → Database → Option UserRecord
basic_user ctx auth_header db = basic_decoded ctx (ctx.decode_basic (strip (drop 6 auth_header))) db

abbrev pub username_user : Option String → Database → Option UserRecord
username_user none db = none
username_user (some username) db =
    if str_eq username "" then none else active_only (get_user_by_username username db)

abbrev pub verified_user : Outcome (Option String) → Database → Outcome (Option UserRecord)
verified_user (err e) db = err e
verified_user (ok username) db = ok (username_user username db)

-- The branch of a token that is not empty.
unfoldable pub token_user : Context → Text → Database → Outcome (Option UserRecord)
token_user ctx token db =
    verified_user (verify_session_token ctx.crypto token ctx.admin_password ctx.now_us) db

abbrev pub or_unauthorized : Outcome (Option UserRecord) → Outcome UserRecord
or_unauthorized (err e) = err e
or_unauthorized (ok none) = err (http 401)
or_unauthorized (ok (some user)) = ok user

abbrev pub or_synthetic : String → Option UserRecord → UserRecord
or_synthetic now none = synthetic_admin now
or_synthetic now (some user) = user

-- The localhost fallback, for a request with neither a token nor accepted Basic credentials.
unfoldable pub fallback_user : Context → Request → Database → Outcome UserRecord
fallback_user ctx r db =
    if is_local (get_client_ip r)
    then ok (or_synthetic ctx.now (active_only (get_user_by_username "admin" db)))
    else err (http 401)

-- `if token:` an empty token counts as none.
abbrev pub with_token : Context → Text → Request → Database → Outcome UserRecord
with_token ctx [] r db = fallback_user ctx r db
with_token ctx (c ∷ token) r db = or_unauthorized (token_user ctx (c ∷ token) db)

abbrev pub with_basic : Context → Option UserRecord → Request → Database → Outcome UserRecord
with_basic ctx (some user) r db = ok user
with_basic ctx none r db = fallback_user ctx r db

abbrev pub after_bearer : Context → Text → Option Text → Request → Database → Outcome UserRecord
after_bearer ctx auth_header (some token) r db = with_token ctx token r db
after_bearer ctx auth_header none r db =
    if starts_with (codes "Basic ") auth_header
    then with_basic ctx (basic_user ctx auth_header db) r db
    else fallback_user ctx r db

-- get_current_user
unfoldable pub get_current_user : Context → Request → Database → Outcome UserRecord
get_current_user ctx r db =
    let auth_header = or_empty r.authorization in
    if starts_with (codes "Bearer ") auth_header
    then with_token ctx (strip (drop 7 auth_header)) r db
    else after_bearer ctx auth_header r.pal_session_token r db

-- An HTTPException is caught, and no other.
abbrev pub deferred : Outcome UserRecord → Outcome (Option UserRecord)
deferred (ok user) = ok (some user)
deferred (err (http status)) = ok none
deferred (err e) = err e

-- get_current_user_optional
unfoldable pub get_current_user_optional :
    Context → Request → Database → Outcome (Option UserRecord)
get_current_user_optional ctx r db = deferred (get_current_user ctx r db)

abbrev pub check_permission : String → Database → Outcome UserRecord → Outcome UserRecord
check_permission permission db (err e) = err e
check_permission permission db (ok user) =
    if has_permission user.role (get_user_permissions user.id db) permission
    then ok user
    else err (http 403)

-- require_permission(permission), applied to the request's user.
unfoldable pub require_permission : String → Context → Request → Database → Outcome UserRecord
require_permission permission ctx r db = check_permission permission db (get_current_user ctx r db)

abbrev pub check_admin : Outcome UserRecord → Outcome UserRecord
check_admin (err e) = err e
check_admin (ok user) = if str_eq user.role "admin" then ok user else err (http 403)

-- require_admin()
unfoldable pub require_admin : Context → Request → Database → Outcome UserRecord
require_admin ctx r db = check_admin (get_current_user ctx r db)
