-- ===== src/Config/Newlines.antt =====
-- That reading leaves the line ends of what `serialize_ini_settings` writes alone, where no value has a
-- carriage return (app/config_manager/parser.py).
use palworld_server_service.Common.{
  ℕ, ◌==◌, ◌≡◌, refl, ap, ◌∙◌, Bool, true, false, not, [], ◌∷◌, ◌++◌, arith, All,
}
use palworld_server_service.Common.Text.{Text, codes, join_on}
use palworld_server_service.Config.Settings.{
  Numbers, Value, Settings, show_value, show_pair, serialize_ini_settings,
}
use palworld_server_service.Config.Parsing.{is_ascii_word, universal_newlines}
use palworld_server_service.Config.Scanner.{all_of, following, KeptPair}
use palworld_server_service.Config.Pairs.{inner, inner-following}

abbrev pub not_return : ℕ → Bool
not_return c = not (c == b'\r')

universal_newlines-unbroken : (t : Text) → all_of not_return t ≡ true → universal_newlines t ≡ t
unfolding universal_newlines
universal_newlines-unbroken [] h = refl
universal_newlines-unbroken (c ∷ t) h =
    let here : (c == b'\r') ≡ false = ground (arith, h) in
    let more : all_of not_return t ≡ true = ground (arith, h) in
    simp here (ap (λ u. c ∷ u) (universal_newlines-unbroken t more))

all_of-append :
    (t u : Text)
    → all_of not_return t ≡ true
    → all_of not_return u ≡ true
    → all_of not_return (t ++ u) ≡ true
all_of-append [] u ht hu = hu
all_of-append (c ∷ t) u ht hu =
    let more : all_of not_return t ≡ true = ground (arith, ht) in
    let rest = all_of-append t u more hu in ground (arith, ht)

key-unbroken : (k : Text) → all_of is_ascii_word k ≡ true → all_of not_return k ≡ true
key-unbroken [] h = refl
key-unbroken (c ∷ k) h =
    let more : all_of is_ascii_word k ≡ true = ground (arith, h) in
    let rest = key-unbroken k more in ground (arith, h)

module _ (n : Numbers) where
  -- A value that is written with no carriage return.
  abbrev pub IsUnbroken : Value n → Type 0
  IsUnbroken v = all_of not_return (show_value n v) ≡ true

  show_pair-unbroken :
      (k : Text) (v : Value n)
      → KeptPair n (k, v)
      → IsUnbroken v
      → all_of not_return (show_pair n (k, v)) ≡ true
  show_pair-unbroken [] v kept h = absurd (ground (arith, kept.0))
  show_pair-unbroken (c ∷ k) v kept h =
      all_of-append (c ∷ k) (b'=' ∷ show_value n v) (key-unbroken (c ∷ k) kept.0) h

  following-unbroken :
      (pairs : Settings n)
      → All (KeptPair n) pairs
      → All (λ (pair : Text × Value n). IsUnbroken pair.1) pairs
      → all_of not_return (following n pairs) ≡ true
  unfolding following
  following-unbroken [] kept h = refl
  following-unbroken ((k, v) ∷ pairs) kept h =
      all_of-append (show_pair n (k, v)) _ (show_pair-unbroken k v kept.0 h.0)
        (following-unbroken pairs kept.1 h.1)

  inner-unbroken :
      (pairs : Settings n)
      → All (KeptPair n) pairs
      → All (λ (pair : Text × Value n). IsUnbroken pair.1) pairs
      → all_of not_return (inner n pairs) ≡ true
  unfolding join_on
  inner-unbroken [] kept h = refl
  inner-unbroken ((k, v) ∷ pairs) kept h =
      ap (all_of not_return) (inner-following n (k, v) pairs)
      ∙ all_of-append (show_pair n (k, v)) _ (show_pair-unbroken k v kept.0 h.0)
          (following-unbroken pairs kept.1 h.1)

  pub universal_newlines-serialize :
      (pairs : Settings n)
      → All (KeptPair n) pairs
      → All (λ (pair : Text × Value n). IsUnbroken pair.1) pairs
      → universal_newlines (serialize_ini_settings n pairs) ≡ serialize_ini_settings n pairs
  unfolding serialize_ini_settings
  universal_newlines-serialize pairs kept h =
      universal_newlines-unbroken _
        (all_of-append (inner n pairs) (codes ")\n") (inner-unbroken pairs kept h) refl)
