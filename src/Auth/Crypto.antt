-- ===== src/Auth/Crypto.antt =====
-- What app/database/auth.py takes from hashlib, hmac, base64 and json.
use palworld_server_service.Common.{ℕ, String, ◌≡◌, true, false, Option, some, any_where}
use palworld_server_service.Common.Text.{Text, is_code}
use palworld_server_service.Common.Digest.{is_ascii}

-- The JSON object of a session token. `exp` is its numeric claim in microseconds, and `none` where
-- a claim is missing or of another type.
pub record Claims : Type 0 where
  pub sub : Option String
  pub exp : Option ℕ
  pub nonce : String

pub record Crypto : Type 0 where
  -- The hexadecimal PBKDF2-HMAC-SHA256 digest of a password and a salt.
  pub pbkdf2 : String → String → String
  -- The base64url text, with no padding, of the HMAC-SHA256 of a text under a key.
  pub hmac_b64 : String → Text → Text
  -- json.dumps, then base64url with no padding.
  pub encode_claims : Claims → Text
  -- The way back; `none` for the three errors that the code catches.
  pub decode_claims : Text → Option Claims

-- Documented behaviour: the base64url alphabet is ASCII and has no dot, and decoding inverts encoding.
pub record IsLawful (c : Crypto) : Type 0 where
  pub no_dot-hmac : (key : String) (t : Text) → any_where (is_code b'.') (c.hmac_b64 key t) ≡ false
  pub hmac-is_ascii : (key : String) (t : Text) → is_ascii (c.hmac_b64 key t) ≡ true
  pub no_dot-encode : (claims : Claims) → any_where (is_code b'.') (c.encode_claims claims) ≡ false
  pub decode-encode : (claims : Claims) → c.decode_claims (c.encode_claims claims) ≡ some claims
