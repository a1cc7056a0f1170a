-- ===== src/Config/Pairs.antt =====
-- That the scanner of `parse_ini_file` finds the pairs that `serialize_ini_settings` joins
-- (app/config_manager/parser.py).
use mathlib.Core.List.{append-nil}
use palworld_server_service.Common.{
  ℕ, zero, suc, ◌≤◌, ◌≡◌, refl, sym, ap, ◌∙◌, Bool, [], ◌∷◌, ◌++◌, map, arith, length,
  length-append, All,
}
use palworld_server_service.Common.Text.{Text, join_on}
use palworld_server_service.Config.Settings.{Numbers, Value, Settings, show_value, show_pair}
use palworld_server_service.Config.Parsing.{span, Token, pair_match, next_match, find_pairs}
use palworld_server_service.Config.Scanner.{
  token_of, following, following-Follows, KeptPair, show_pair-pair_match,
}

module _ (n : Numbers) where
  abbrev pub token_pair : Text × Value n → Text × Token
  token_pair (k, v) = (k, token_of n v)

  -- The text between the brackets.
  abbrev pub inner : Settings n → Text
  inner pairs = join_on b',' (map (show_pair n) pairs)

  pub inner-following :
      (pair : Text × Value n) (pairs : Settings n)
      → inner (pair ∷ pairs) ≡ show_pair n pair ++ following n pairs
  unfolding join_on following
  inner-following pair [] = sym (append-nil (show_pair n pair))
  inner-following pair (next ∷ pairs) =
      ap (λ t. show_pair n pair ++ (b',' ∷ t)) (inner-following next pairs)

module _ (n : Numbers) (wide : ℕ → Bool) where
  find_pairs-shown :
      (fuel : ℕ) (k : Text) (v : Value n) (pairs : Settings n)
      → KeptPair n (k, v)
      → find_pairs wide (suc fuel) (show_pair n (k, v) ++ following n pairs)
        ≡ (k, token_of n v) ∷ find_pairs wide fuel (following n pairs)
  unfolding find_pairs
  find_pairs-shown fuel [] v pairs kept = absurd (ground (arith, kept.0))
  find_pairs-shown fuel (c ∷ k) v pairs kept = ap (next_match (find_pairs wide fuel) _) (
      show_pair-pair_match n wide (c ∷ k) v (following n pairs) kept.0 kept.1
        (following-Follows n pairs))

  shown-length : (pair : Text × Value n) → 1 ≤ length (show_pair n pair)
  shown-length (k, v) = omega (arith, length-append k (b'=' ∷ show_value n v))

  find_pairs-following :
      (fuel : ℕ) (pairs : Settings n)
      → All (KeptPair n) pairs
      → suc (length (following n pairs)) ≤ fuel
      → find_pairs wide fuel (following n pairs) ≡ map (token_pair n) pairs
  unfolding following find_pairs pair_match span
  find_pairs-following zero pairs kept h = absurd (omega arith)
  find_pairs-following (suc fuel) [] kept h = refl
  find_pairs-following (suc zero) (pair ∷ pairs) kept h = absurd (omega arith)
  find_pairs-following (suc (suc fuel)) ((k, v) ∷ pairs) kept h =
      find_pairs-shown fuel k v pairs kept.0
      ∙ ap (λ ps. (k, token_of n v) ∷ ps)
          (find_pairs-following fuel pairs kept.1 (
            omega
              (arith, shown-length (k, v), length-append (show_pair n (k, v)) (following n pairs))))

  pub find_pairs-inner :
      (pairs : Settings n)
      → All (KeptPair n) pairs
      → find_pairs wide (suc (length (inner n pairs))) (inner n pairs) ≡ map (token_pair n) pairs
  unfolding find_pairs join_on
  find_pairs-inner [] kept = refl
  find_pairs-inner ((k, v) ∷ pairs) kept =
      let e = inner-following n (k, v) pairs in
      ap (λ t. find_pairs wide (suc (length t)) t) e
      ∙ (find_pairs-shown (length (show_pair n (k, v) ++ following n pairs)) k v pairs kept.0
          ∙ ap (λ ps. (k, token_of n v) ∷ ps)
              (find_pairs-following (length (show_pair n (k, v) ++ following n pairs)) pairs kept.1
                (omega (
                  arith,
                  shown-length (k, v),
                  length-append (show_pair n (k, v)) (following n pairs),
                ))))
