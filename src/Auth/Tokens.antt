-- ===== src/Auth/Tokens.antt =====
-- `hash_password`, `verify_password`, `generate_session_token` and `verify_session_token`.
-- The clock is read in microseconds.
use palworld_server_service.Common.{
  ℕ, ◌+◌, ◌*◌, ◌/◌, String, Bool, Option, none, some, List, [], ◌∷◌, ◌++◌, ltb, str_eq,
  if◌then◌else◌,
}
use palworld_server_service.Common.Text.{Text, split_on}
use palworld_server_service.Common.Outcome.{Outcome, ok, err}
use palworld_server_service.Common.Digest.{compare_digest}
use palworld_server_service.Auth.Crypto.{Claims, Crypto}

abbrev pub second : ℕ
second = 1000000

module _ (c : Crypto) where
  -- (digest, salt)
  unfoldable pub hash_password : String → String → String × String
  hash_password password salt = (c.pbkdf2 password salt, salt)

  unfoldable pub verify_password : String → String → String → Bool
  verify_password plain_password salt password_hash =
      str_eq (hash_password plain_password salt).0 password_hash

  -- int(time.time()) + expires_in_seconds
  abbrev pub expires_at : ℕ → ℕ → ℕ
  expires_at now expires_in_seconds = now / second + expires_in_seconds

  abbrev pub payload : String → ℕ → String → Claims
  payload username exp nonce = record {
    sub = some username;
    exp = some (exp * second);
    nonce = nonce;
  }

  unfoldable pub generate_session_token : String → String → ℕ → ℕ → String → Text
  generate_session_token username secret_key expires_in_seconds now nonce =
      let payload_b64 =
        c.encode_claims (payload username (expires_at now expires_in_seconds) nonce) in
      payload_b64 ++ b'.' ∷ c.hmac_b64 secret_key payload_b64

  abbrev check_sub : Option String → Option String
  check_sub none = none
  check_sub (some username) = if str_eq username "" then none else some username

  abbrev check_exp : Option ℕ → ℕ → Option String → Option String
  check_exp none now username = none
  check_exp (some exp) now username = if ltb exp now then none else username

  abbrev pub check_claims : Option Claims → ℕ → Option String
  check_claims none now = none
  check_claims (some claims) now = check_exp claims.exp now (check_sub claims.sub)

  -- A signature that is not ASCII raises TypeError.
  abbrev pub with_digest : Outcome Bool → Text → ℕ → Outcome (Option String)
  with_digest (err e) payload_b64 now = err e
  with_digest (ok same) payload_b64 now =
      if same then ok (check_claims (c.decode_claims payload_b64) now) else ok none

  abbrev pub verify_parts : List Text → String → ℕ → Outcome (Option String)
  verify_parts (payload_b64 ∷ sig_b64 ∷ []) secret_key now =
      with_digest (compare_digest sig_b64 (c.hmac_b64 secret_key payload_b64)) payload_b64 now
  verify_parts _ secret_key now = ok none

  unfoldable pub verify_session_token : Text → String → ℕ → Outcome (Option String)
  verify_session_token token secret_key now = verify_parts (split_on b'.' token) secret_key now
