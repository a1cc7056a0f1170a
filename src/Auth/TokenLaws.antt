-- ===== src/Auth/TokenLaws.antt =====
-- What session tokens guarantee, over any lawful hashing and encoding.
use palworld_server_service.Common.{
  ℕ, ◌+◌, ◌*◌, ◌/◌, ◌≤◌, String, ◌≡◌, refl, ◌≢◌, Bool, true, false, Option, none, some, List, [],
  ◌∷◌, ◌++◌, arith, ltb, eq_iff, if◌then◌else◌, Bool-cases, Option-cases, ap, ◌∙◌, inl, inr,
}
use palworld_server_service.Common.Text.{
  Text, text_eq_refl, text_eq→eq, split_on, split_on_join, split_on-two,
}
use palworld_server_service.Common.Outcome.{Outcome, ok, err}
use palworld_server_service.Common.Digest.{is_ascii, compare_digest}
use palworld_server_service.Auth.Crypto.{Claims, Crypto, IsLawful}
use palworld_server_service.Auth.Tokens.{
  with_digest, verify_parts, second, expires_at, payload, generate_session_token, check_claims,
  verify_session_token,
}

compare_digest-true : (a b : Text) → compare_digest a b ≡ ok true → a ≡ b
compare_digest-true a b h = elim (Bool-cases (is_ascii a)) [
  | inr wide ↦ absurd (ground arith)
  | inl fine ↦ elim (Bool-cases (is_ascii b)) [
    | inr wide ↦ absurd (ground arith)
    | inl both ↦ text_eq→eq a b (ground arith)
  ]
]

ok_inj : {x y : Option String} → ◌≡◌ {A = Outcome (Option String)} (ok x) (ok y) → x ≡ y
ok_inj h = ground (arith, h)

module _ (c : Crypto) where
  -- A token is read as its claims say, once its signature fits.
  verify-generate :
      IsLawful c
      → (username key nonce : String) (lifetime issued now : ℕ)
      → verify_session_token c (generate_session_token c username key lifetime issued nonce) key now
        ≡ ok (check_claims c (some (payload c username (expires_at c issued lifetime) nonce)) now)
  unfolding verify_session_token generate_session_token
  verify-generate law username key nonce lifetime issued now = rw (
    split_on_join b'.' _ _ (law.no_dot-encode _) (law.no_dot-hmac key _),
    law.hmac-is_ascii,
    text_eq_refl,
    law.decode-encode,
  )

  -- Over lawful hashing and encoding, a token that was issued for a user whose name is not empty
  -- is accepted as that user until its expiry, which is the second of issue plus the lifetime, and
  -- is rejected after it.
  pub generate_session_token_lifetime :
      IsLawful c
      → (username key nonce : String) (lifetime issued now : ℕ) → username ≢ ""
      → verify_session_token c (generate_session_token c username key lifetime issued nonce) key now
        ≡ ok (if ltb ((issued / second + lifetime) * second) now then none else some username)
  generate_session_token_lifetime law username key nonce lifetime issued now h =
      rw (verify-generate law username key nonce lifetime issued now)
        (ground (arith, eq_iff username ""))

  check_claims-some :
      (o : Option Claims) (now : ℕ) (username : String)
      → check_claims c o now ≡ some username
      → (claims : Claims) × (exp : ℕ) × (o ≡ some claims)
        × (claims.sub ≡ some username)
        × (claims.exp ≡ some exp)
        × (now ≤ exp)
  check_claims-some none now username h = absurd (ground arith)
  check_claims-some (some claims) now username h = elim (Option-cases claims.exp) [
    | inl e ↦ absurd (ground arith)
    | inr (exp, e) ↦ (claims, exp, refl, ground arith, e, ground arith)
  ]

  with_digest-some :
      (o : Outcome Bool) (p : Text) (username : String) (now : ℕ)
      → with_digest c o p now ≡ ok (some username)
      → (o ≡ ok true) × (check_claims c (c.decode_claims p) now ≡ some username)
  with_digest-some (err e) p username now h = absurd (ground arith)
  with_digest-some (ok true) p username now h = (refl, ok_inj h)
  with_digest-some (ok false) p username now h = absurd (ground arith)

  verify_parts-some :
      (parts : List Text) (key username : String) (now : ℕ)
      → verify_parts c parts key now ≡ ok (some username)
      → (p q : Text) × (parts ≡ p ∷ q ∷ [])
        × (q ≡ c.hmac_b64 key p)
        × (check_claims c (c.decode_claims p) now ≡ some username)
  verify_parts-some [] key username now h = absurd (ground arith)
  verify_parts-some (p ∷ []) key username now h = absurd (ground arith)
  verify_parts-some (p ∷ q ∷ r ∷ rest) key username now h = absurd (ground arith)
  verify_parts-some (p ∷ q ∷ []) key username now h =
      let (same, checked) = with_digest-some _ p username now h in
      (p, q, refl, compare_digest-true q _ same, checked)

  -- Whatever token is accepted was signed under the key: it is a payload, a dot and the payload's
  -- own signature, and the payload names the user and an expiry that has not passed.
  pub verify_session_token_authentic :
      (token : Text) (key username : String) (now : ℕ)
      → verify_session_token c token key now ≡ ok (some username)
      → (p : Text) × (claims : Claims) × (exp : ℕ) × (token ≡ p ++ b'.' ∷ c.hmac_b64 key p)
        × (c.decode_claims p ≡ some claims)
        × (claims.sub ≡ some username)
        × (claims.exp ≡ some exp)
        × (now ≤ exp)
  verify_session_token_authentic token key username now h =
      let (p, q, split, signed, checked) =
        verify_parts-some (split_on b'.' token) key username now
          (unfold verify_session_token in h) in
      let (claims, exp, decoded, named, dated, fresh) =
        check_claims-some (c.decode_claims p) now username checked in
      (
        p,
        claims,
        exp,
        split_on-two b'.' token p q split ∙ ap (λ t. p ++ b'.' ∷ t) signed,
        decoded,
        named,
        dated,
        fresh,
      )
