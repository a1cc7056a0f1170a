-- ===== src/Examples/Toy.antt =====
-- A hashing and encoding that has the documented behaviour of hashlib, hmac, base64 and json that
-- app/database/auth.py relies on, for the examples: digests name their salt, and numbers are moved
-- past the code of the dot.
use Prim.Native.Nat.{Ordering, compare, ◌-◌}
use Prim.Native.Char.{char, IsLt, IsScalar}
use palworld_server_service.Common.{
  ℕ, ◌+◌, ◌%◌, String, ◌≡◌, refl, false, Option, none, some, [], ◌∷◌, arith, ◌==◌, if◌then◌else◌,
  any_where, length,
}
use palworld_server_service.Common.Text.{Text, is_code}
use palworld_server_service.Auth.Crypto.{Claims, Crypto, IsLawful}

-- What IsScalar computes to, and its decision.
abbrev BothLt : Ordering → Ordering → Type 0
BothLt Ordering.lt o = IsLt o
BothLt Ordering.eq _ = ⊥
BothLt Ordering.gt _ = ⊥

abbrev Scalar : Ordering → Ordering → Ordering → Type 0
Scalar Ordering.lt _ _ = Unit
Scalar Ordering.eq o p = BothLt o p
Scalar Ordering.gt o p = BothLt o p

abbrev both : (o p : Ordering) → Option (BothLt o p)
both Ordering.lt Ordering.lt = some tt
both Ordering.lt Ordering.eq = none
both Ordering.lt Ordering.gt = none
both Ordering.eq _ = none
both Ordering.gt _ = none

abbrev decide : (o p q : Ordering) → Option (Scalar o p q)
decide Ordering.lt _ _ = some tt
decide Ordering.eq o p = both o p
decide Ordering.gt o p = both o p

both-some : (o p : Ordering) (h : BothLt o p) → both o p ≡ some h
both-some Ordering.lt Ordering.lt h = refl
both-some Ordering.lt Ordering.eq h = absurd h
both-some Ordering.lt Ordering.gt h = absurd h
both-some Ordering.eq _ h = absurd h
both-some Ordering.gt _ h = absurd h

decide-some : (o p q : Ordering) (h : Scalar o p q) → decide o p q ≡ some h
decide-some Ordering.lt _ _ h = refl
decide-some Ordering.eq o p h = both-some o p h
decide-some Ordering.gt o p h = both-some o p h

abbrev char_at : (n : ℕ) → Option (IsScalar n)
char_at n = decide (compare n 55296) (compare 57343 n) (compare n 1114112)

abbrev push : (n : ℕ) → Option (IsScalar n) → String → String
push n none s = s
push n (some h) s = String.◌∷◌ (char n h) s

abbrev put : String → Text → Text
put String.[] rest = 47 ∷ rest
put (String.◌∷◌ (char n h) s) rest = (48 + n) ∷ put s rest

abbrev read_text : Text → String × Text
read_text [] = ("", [])
read_text (n ∷ rest) =
    let (s, after) = read_text rest in
    if n == 47 then ("", rest) else (push (n - 48) (char_at (n - 48)) s, after)

read_text-put : (s : String) (rest : Text) → read_text (put s rest) ≡ (s, rest)
read_text-put String.[] rest = refl
read_text-put (String.◌∷◌ (char n h) s) rest =
    let back : 48 + n - 48 ≡ n = omega arith in
    let past : (48 + n == 47) ≡ false = ground arith in
    rw
      (
        read_text-put s rest,
        past,
        back,
        decide-some (compare n 55296) (compare 57343 n) (compare n 1114112) h,
      )
      refl

abbrev put_exp : Option ℕ → ℕ
put_exp none = 47
put_exp (some exp) = 48 + exp

abbrev get_exp : ℕ → Option ℕ
get_exp n = if n == 47 then none else some (n - 48)

get_exp-put_exp : (exp : Option ℕ) → get_exp (put_exp exp) ≡ exp
get_exp-put_exp none = refl
get_exp-put_exp (some exp) = let back : 48 + exp - 48 ≡ exp = omega arith in rw back (ground arith)

abbrev put_sub : Option String → Text → Text
put_sub none rest = 47 ∷ rest
put_sub (some sub) rest = 48 ∷ put sub rest

abbrev get_claims : Option ℕ → Text → Option Claims
get_claims exp [] = none
get_claims exp (tag ∷ rest) =
    if tag == 47
    then some (record { sub = none; exp = exp; nonce = (read_text rest).0 })
    else some (record {
      sub = some (read_text rest).0;
      exp = exp;
      nonce = (read_text (read_text rest).1).0;
    })

abbrev encode : Claims → Text
encode claims = put_exp claims.exp ∷ put_sub claims.sub (put claims.nonce [])

abbrev decode : Text → Option Claims
decode [] = none
decode (n ∷ rest) = get_claims (get_exp n) rest

abbrev pub toy : Crypto
toy = record {
  pbkdf2 = λ password salt. password;
  hmac_b64 = λ key t. (48 + length t % 64) ∷ [];
  encode_claims = encode;
  decode_claims = decode;
}

no_dot-put :
    (s : String) (rest : Text)
    → any_where (is_code b'.') rest ≡ false
    → any_where (is_code b'.') (put s rest) ≡ false
no_dot-put String.[] rest h = h
no_dot-put (String.◌∷◌ (char n p) s) rest h = ground (arith, no_dot-put s rest h)

decode-encode : (claims : Claims) → decode (encode claims) ≡ some claims
decode-encode claims = read claims.sub
  where
    read :
        (sub : Option String)
        → get_claims (get_exp (put_exp claims.exp)) (put_sub sub (put claims.nonce []))
          ≡ some (record { sub = sub; exp = claims.exp; nonce = claims.nonce })
    read none = rw (get_exp-put_exp claims.exp, read_text-put claims.nonce []) refl
    read (some sub) =
        rw
          (
            get_exp-put_exp claims.exp,
            read_text-put sub (put claims.nonce []),
            read_text-put claims.nonce [],
          )
          refl

no_dot-exp : (exp : Option ℕ) → (put_exp exp == b'.') ≡ false
no_dot-exp none = refl
no_dot-exp (some exp) = ground arith

no_dot-sub :
    (sub : Option String) (rest : Text)
    → any_where (is_code b'.') rest ≡ false
    → any_where (is_code b'.') (put_sub sub rest) ≡ false
no_dot-sub none rest h = h
no_dot-sub (some sub) rest h = no_dot-put sub rest h

no_dot-encode : (claims : Claims) → any_where (is_code b'.') (encode claims) ≡ false
no_dot-encode claims =
    rw (no_dot-exp claims.exp) (no_dot-sub claims.sub _ (no_dot-put claims.nonce [] refl))

pub toy-IsLawful : IsLawful toy
toy-IsLawful = record {
  no_dot-hmac = λ key t. ground arith;
  hmac-is_ascii = λ key t. ground arith;
  no_dot-encode = no_dot-encode;
  decode-encode = decode-encode;
}
