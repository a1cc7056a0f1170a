-- ===== src/Config/Scanner.antt =====
-- What the scanner of `parse_ini_file` (app/config_manager/parser.py) finds in a text that
-- `serialize_ini_settings` wrote.
use mathlib.Core.List.{append_assoc, append-nil, reverse-append}
use palworld_server_service.Common.{
  ℕ, ◌==◌, ◌≡◌, refl, sym, ap, ◌∙◌, ◌⊎◌, inl, inr, Bool, true, false, ◌&&◌, not, some, [], ◌∷◌,
  ◌++◌, arith, if◌then◌else◌,
}
use palworld_server_service.Common.Text.{Text, codes, text_eq, starts_with, is_space}
use palworld_server_service.Config.Settings.{
  Numbers, Value, flag, real, whole, text, other, Settings, show_value, show_pair, quoted,
}
use palworld_server_service.Config.Injection.{is_bracketed}
use palworld_server_service.Config.Parsing.{
  is_ascii_word, is_word, span, closed_by, up_to, Token, quoted_token, bracketed_token, plain_token,
  plain_of, value_match, with_key, key_match, pair_match,
}

abbrev pub all_of : (ℕ → Bool) → Text → Bool
all_of p [] = true
all_of p (c ∷ t) = p c && all_of p t

-- A text whose last character is no space.
abbrev pub EndsWell : Text → Type 0
EndsWell t = (y : Text) × ((d : ℕ) × ((t ≡ y ++ (d ∷ [])) × (is_space d ≡ false)))

abbrev pub begins_plain : Text → Bool
begins_plain [] = false
begins_plain (c ∷ t) = not (is_space c) && (not (c == b'"') && not (c == b'('))

-- A number as it is written: no comma, no quote and no bracket at its front, no spaces around it.
pub record IsPlain (t : Text) : Type 0 where
  pub begins : begins_plain t ≡ true
  pub no_comma : all_of (λ c. not (c == b',')) t ≡ true
  pub ends_well : EndsWell t
  pub is_not_true : text_eq t (codes "True") ≡ false
  pub is_not_false : text_eq t (codes "False") ≡ false

span-stop :
    (p : ℕ → Bool) (w : Text) (c : ℕ) (rest : Text)
    → all_of p w ≡ true
    → p c ≡ false
    → span p (w ++ (c ∷ rest)) ≡ (w, c ∷ rest)
unfolding span
span-stop p [] c rest h stop = simp stop refl
span-stop p (d ∷ w) c rest h stop =
    let here : p d ≡ true = ground (arith, h) in
    let more : all_of p w ≡ true = ground (arith, h) in
    simp (span-stop p w c rest more stop, here) refl

span-all : (p : ℕ → Bool) (w : Text) → all_of p w ≡ true → span p w ≡ (w, [])
unfolding span
span-all p [] h = refl
span-all p (d ∷ w) h =
    let here : p d ≡ true = ground (arith, h) in
    let more : all_of p w ≡ true = ground (arith, h) in simp (span-all p w more, here) refl

-- What follows a pair: nothing, or a comma.
abbrev pub Follows : Text → Type 0
Follows rest = (rest ≡ []) ⊎ ((more : Text) × (rest ≡ b',' ∷ more))

abbrev not_comma : ℕ → Bool
not_comma c = not (c == b',')

span-Follows :
    (w rest : Text)
    → all_of not_comma w ≡ true
    → Follows rest
    → span not_comma (w ++ rest) ≡ (w, rest)
span-Follows w rest h (inl e) =
    ap (λ r. span not_comma (w ++ r)) e
    ∙ (ap (span not_comma) (append-nil w)
        ∙ (span-all not_comma w h ∙ ap (λ (r : Text). (w, r)) (sym e)))
span-Follows w rest h (inr (more, e)) =
    ap (λ r. span not_comma (w ++ r)) e
    ∙ (span-stop not_comma w b',' more h refl ∙ ap (λ (r : Text). (w, r)) (sym e))

plain-value_match :
    (t rest : Text)
    → begins_plain t ≡ true
    → all_of not_comma t ≡ true
    → Follows rest
    → value_match (t ++ rest) ≡ some (plain_token t, rest)
unfolding value_match
plain-value_match [] rest begins no_comma follows = absurd (ground arith)
plain-value_match (c ∷ t) rest begins no_comma follows =
    let no_quote : (c == b'"') ≡ false = ground (arith, begins) in
    let no_bracket : (c == b'(') ≡ false = ground (arith, begins) in
    simp (no_quote, no_bracket) (ap plain_of (span-Follows (c ∷ t) rest no_comma follows))

closed :
    (d : ℕ) (t rest : Text)
    → all_of (λ c. not (c == d)) t ≡ true
    → up_to d ((t ++ (d ∷ [])) ++ rest) ≡ some (t, rest)
closed d t rest h =
    ap (λ u. closed_by (span (λ c. not (c == d)) u)) (append_assoc t (d ∷ []) rest)
    ∙ ap closed_by (span-stop (λ c. not (c == d)) t d rest h (ground arith))

quoted-value_match :
    (n : Numbers) (t rest : Text)
    → all_of (λ c. not (c == b'"')) t ≡ true
    → value_match (quoted n t ++ rest) ≡ some (quoted_token t, rest)
unfolding value_match
quoted-value_match n t rest h = simp (closed b'"' t rest h) refl

bracketed-value_match :
    (t rest : Text)
    → all_of (λ c. not (c == b')')) t ≡ true
    → value_match ((b'(' ∷ (t ++ (b')' ∷ []))) ++ rest)
      ≡ some (bracketed_token (b'(' ∷ (t ++ (b')' ∷ []))), rest)
unfolding value_match
bracketed-value_match t rest h = simp (closed b')' t rest h) refl

module _ (n : Numbers) where
  -- A text in brackets with no other one that closes, or one with no quote in it.
  abbrev pub IsWritten : Text → Type 0
  IsWritten t =
      ((is_bracketed n t ≡ false) × (all_of (λ c. not (c == b'"')) t ≡ true))
      ⊎ ((inside : Text) × ((t ≡ b'(' ∷ (inside ++ (b')' ∷ [])))
            × (all_of (λ c. not (c == b')')) inside ≡ true)))

  -- A value of a kind that the file keeps.
  abbrev pub IsKept : Value n → Type 0
  IsKept (flag b) = Unit
  IsKept (real x) = IsPlain (n.show_float x)
  IsKept (whole i) = IsPlain (n.show_int i)
  IsKept (text t) = IsWritten t
  IsKept (other t) = ⊥

  abbrev pub token_of : Value n → Token
  token_of (flag b) = plain_token (if b then codes "True" else codes "False")
  token_of (real x) = plain_token (n.show_float x)
  token_of (whole i) = plain_token (n.show_int i)
  token_of (text t) = if is_bracketed n t then bracketed_token t else quoted_token t
  token_of (other t) = quoted_token t

  pub bracketed : (t : Text) → is_bracketed n (b'(' ∷ (t ++ (b')' ∷ []))) ≡ true
  unfolding starts_with
  bracketed t =
      ap (λ u. starts_with (codes "(") (b'(' ∷ (t ++ (b')' ∷ []))) && starts_with (codes ")") u)
        (reverse-append (b'(' ∷ t) (b')' ∷ []))

  text-value_match :
      (t rest : Text)
      → IsWritten t
      → value_match (show_value n (text t) ++ rest) ≡ some (token_of (text t), rest)
  text-value_match t rest (inl (bare, h)) = simp bare (quoted-value_match n t rest h)
  text-value_match t rest (inr (inside, (e, h))) =
      let shut = ap (is_bracketed n) e ∙ bracketed inside in
      simp shut (
        ap (λ u. value_match (u ++ rest)) e
        ∙ (bracketed-value_match inside rest h ∙ ap (λ u. some (bracketed_token u, rest)) (sym e)))

  show_value-value_match :
      (v : Value n) (rest : Text)
      → IsKept v
      → Follows rest
      → value_match (show_value n v ++ rest) ≡ some (token_of v, rest)
  show_value-value_match (flag true) rest kept follows =
      plain-value_match (codes "True") rest refl refl follows
  show_value-value_match (flag false) rest kept follows =
      plain-value_match (codes "False") rest refl refl follows
  show_value-value_match (real x) rest kept follows =
      plain-value_match (n.show_float x) rest kept.begins kept.no_comma follows
  show_value-value_match (whole i) rest kept follows =
      plain-value_match (n.show_int i) rest kept.begins kept.no_comma follows
  show_value-value_match (text t) rest kept follows = text-value_match t rest kept
  show_value-value_match (other t) rest kept follows = absurd kept

  -- The rest of the pairs, as they follow the first.
  unfoldable pub following : Settings n → Text
  following [] = []
  following (pair ∷ pairs) = b',' ∷ (show_pair n pair ++ following pairs)

  pub following-Follows : (pairs : Settings n) → Follows (following pairs)
  unfolding following
  following-Follows [] = inl refl
  following-Follows (pair ∷ pairs) = inr (show_pair n pair ++ following pairs, refl)

  abbrev pub is_key : Text → Bool
  is_key [] = false
  is_key (c ∷ k) = all_of is_ascii_word (c ∷ k)

  -- A key of letters, digits and underscores, with a value that the file keeps.
  abbrev pub KeptPair : Text × Value n → Type 0
  KeptPair (k, v) = (is_key k ≡ true) × IsKept v

  word-all :
      (wide : ℕ → Bool) (k : Text) → all_of is_ascii_word k ≡ true → all_of (is_word wide) k ≡ true
  word-all wide [] h = refl
  word-all wide (c ∷ k) h =
      let here : is_ascii_word c ≡ true = ground (arith, h) in
      let more : all_of is_ascii_word k ≡ true = ground (arith, h) in
      simp (here, word-all wide k more) refl

  pub show_pair-pair_match :
      (wide : ℕ → Bool) (k : Text) (v : Value n) (rest : Text)
      → is_key k ≡ true
      → IsKept v
      → Follows rest
      → pair_match wide (show_pair n (k, v) ++ rest) ≡ some ((k, token_of v), rest)
  unfolding pair_match
  show_pair-pair_match wide [] v rest key kept follows = absurd (ground arith)
  show_pair-pair_match wide (c ∷ k) v rest key kept follows =
      ap (λ u. key_match (span (is_word wide) u))
        (append_assoc (c ∷ k) (b'=' ∷ show_value n v) rest)
      ∙ (ap key_match (
            span-stop (is_word wide) (c ∷ k) b'=' (show_value n v ++ rest)
              (word-all wide (c ∷ k) key) refl)
          ∙ ap (with_key (c ∷ k)) (show_value-value_match v rest kept follows))
