-- ===== src/Config/RoundTrip.antt =====
-- That `parse_ini_file` reads back what `serialize_ini_settings` writes
-- (app/config_manager/parser.py).
use mathlib.Core.List.{append_assoc, append-nil}
use palworld_server_service.Common.{
  ℕ, suc, ◌==◌, ◌≡◌, refl, sym, ap, ◌∙◌, inl, inr, Bool, true, false, some, List, [], ◌∷◌, ◌++◌,
  map, arith, length, any_where, Bool-cases, All,
}
use palworld_server_service.Common.Text.{Text, codes, text_eq, starts_with, strip}
use palworld_server_service.Config.Settings.{
  Numbers, Value, flag, real, whole, text, other, Settings, assign, serialize_ini_settings,
}
use palworld_server_service.Config.Injection.{is_bracketed}
use palworld_server_service.Config.Parsing.{
  find_pairs, before_last, up_to_last, after_first, option_settings, Readers, has_dot, plain_value,
  value_of, assign_tokens, settings_in, parse_ini_file,
}
use palworld_server_service.Config.Scanner.{IsPlain, IsKept, token_of, KeptPair}
use palworld_server_service.Config.Pairs.{token_pair, inner, find_pairs-inner}
use palworld_server_service.Config.Newlines.{IsUnbroken, universal_newlines-serialize}
use palworld_server_service.Config.Trimmed.{strip-IsPlain, strip-inner}

-- No key twice.
abbrev pub NoDuplicate : {A : Type 0} → List (Text × A) → Type 0
NoDuplicate [] = Unit
NoDuplicate ((k, v) ∷ pairs) =
    (any_where (λ pair. text_eq k pair.0) pairs ≡ false) × NoDuplicate pairs

up_to_last-append : (d : ℕ) (t u : Text) → up_to_last d u ≡ some [] → up_to_last d (t ++ u) ≡ some t
unfolding up_to_last
up_to_last-append d [] u h = h
up_to_last-append d (c ∷ t) u h = ap (before_last (c == d) c) (up_to_last-append d t u h)

module _ (n : Numbers) (r : Readers n) where
  -- A number that is read as it is written.
  abbrev pub ReadsBack : Value n → Type 0
  ReadsBack (flag b) = Unit
  ReadsBack (real x) =
      (has_dot n r (n.show_float x) ≡ true) × (r.read_float (n.show_float x) ≡ some x)
  ReadsBack (whole i) = (has_dot n r (n.show_int i) ≡ false) × (r.read_int (n.show_int i) ≡ some i)
  ReadsBack (text t) = Unit
  ReadsBack (other t) = Unit

  plain_real :
      (x : n.Float)
      → IsPlain (n.show_float x)
      → ReadsBack (real x)
      → plain_value n r (strip (n.show_float x)) ≡ real x
  plain_real x kept reads =
      ap (plain_value n r) (strip-IsPlain (n.show_float x) kept)
      ∙ simp (kept.is_not_true, kept.is_not_false, reads.0, reads.1) refl

  plain_whole :
      (i : n.Int)
      → IsPlain (n.show_int i)
      → ReadsBack (whole i)
      → plain_value n r (strip (n.show_int i)) ≡ whole i
  plain_whole i kept reads =
      ap (plain_value n r) (strip-IsPlain (n.show_int i) kept)
      ∙ simp (kept.is_not_true, kept.is_not_false, reads.0, reads.1) refl

  value_of-token_of : (v : Value n) → IsKept n v → ReadsBack v → value_of n r (token_of n v) ≡ v
  unfolding strip text_eq
  value_of-token_of (flag true) kept reads = refl
  value_of-token_of (flag false) kept reads = refl
  value_of-token_of (real x) kept reads = plain_real x kept reads
  value_of-token_of (whole i) kept reads = plain_whole i kept reads
  value_of-token_of (text t) kept reads = elim (Bool-cases (is_bracketed n t)) [
    | inl shut ↦ simp shut refl
    | inr bare ↦ simp bare refl
  ]
  value_of-token_of (other t) kept reads = absurd kept

  assign-new :
      (k : Text) (v : Value n) (settings : Settings n)
      → any_where (λ pair. text_eq pair.0 k) settings ≡ false
      → assign n k v settings ≡ settings ++ ((k, v) ∷ [])
  assign-new k v [] h = refl
  assign-new k v ((j, w) ∷ settings) h =
      let other : text_eq j k ≡ false = ground (arith, h) in
      let rest : any_where (λ pair. text_eq pair.0 k) settings ≡ false = ground (arith, h) in
      simp other (ap (λ t. (j, w) ∷ t) (assign-new k v settings rest))

  any_where-append :
      (p : Text × Value n → Bool) (s t : Settings n)
      → any_where p s ≡ false
      → any_where p t ≡ false
      → any_where p (s ++ t) ≡ false
  any_where-append p [] t hs ht = ht
  any_where-append p (x ∷ s) t hs ht = ground (arith, any_where-append p s t)

  -- No pair that comes has a key of the settings there are.
  abbrev Apart : Settings n → Settings n → Type 0
  Apart settings =
      All (λ (pair : Text × Value n). any_where (λ q. text_eq q.0 pair.0) settings ≡ false)

  Apart-add :
      (k : Text) (v : Value n) (settings pairs : Settings n)
      → any_where (λ pair. text_eq k pair.0) pairs ≡ false
      → Apart settings pairs
      → Apart (settings ++ ((k, v) ∷ [])) pairs
  Apart-add k v settings [] h apart = tt
  Apart-add k v settings ((j, w) ∷ pairs) h apart =
      let other : text_eq k j ≡ false = ground (arith, h) in
      let rest : any_where (λ pair. text_eq k pair.0) pairs ≡ false = ground (arith, h) in
      (
        any_where-append (λ q. text_eq q.0 j) settings ((k, v) ∷ []) apart.0 (simp other refl),
        Apart-add k v settings pairs rest apart.1,
      )

  assign_tokens-append :
      (pairs settings : Settings n)
      → All (KeptPair n) pairs
      → All (λ (pair : Text × Value n). ReadsBack pair.1) pairs
      → NoDuplicate pairs
      → Apart settings pairs
      → assign_tokens n r (map (token_pair n) pairs) settings ≡ settings ++ pairs
  unfolding assign_tokens
  assign_tokens-append [] settings kept reads once apart = sym (append-nil settings)
  assign_tokens-append ((k, v) ∷ pairs) settings kept reads once apart =
      ap (λ w. assign_tokens n r (map (token_pair n) pairs) (assign n k w settings))
        (value_of-token_of v kept.0.1 reads.0)
      ∙ (ap (assign_tokens n r (map (token_pair n) pairs)) (assign-new k v settings apart.0)
          ∙ (assign_tokens-append pairs (settings ++ ((k, v) ∷ [])) kept.1 reads.1 once.1
                (Apart-add k v settings pairs once.0 apart.1)
              ∙ append_assoc settings ((k, v) ∷ []) pairs))

  Apart-nil : (pairs : Settings n) → Apart [] pairs
  Apart-nil [] = tt
  Apart-nil (pair ∷ pairs) = (refl, Apart-nil pairs)

  option_settings-serialize :
      (pairs : Settings n) → option_settings (serialize_ini_settings n pairs) ≡ some (inner n pairs)
  unfolding option_settings serialize_ini_settings after_first starts_with
  option_settings-serialize pairs =
      up_to_last-append b')' (inner n pairs) (codes ")\n") (unfold up_to_last in refl)

  -- Settings are read back as they were written, in their order, by a scan that ends: where no key
  -- occurs twice and each is of letters, digits and underscores, where each number is written plainly
  -- and read as it is written, and where each text holds no quote, or stands in brackets with no
  -- other closing one, and no value is written with a carriage return, which reading would turn into a
  -- line feed. Values of other types are not read back.
  pub parse-serialize :
      (pairs : Settings n)
      → All (KeptPair n) pairs
      → All (λ (pair : Text × Value n). ReadsBack pair.1) pairs
      → All (λ (pair : Text × Value n). IsUnbroken n pair.1) pairs
      → NoDuplicate pairs
      → parse_ini_file n r (some (serialize_ini_settings n pairs)) ≡ pairs
  unfolding parse_ini_file
  parse-serialize pairs kept reads unbroken once =
      ap (λ t. settings_in n r (option_settings t))
        (universal_newlines-serialize n pairs kept unbroken)
      ∙ ap (settings_in n r) (option_settings-serialize pairs)
      ∙ (ap (λ t. assign_tokens n r (find_pairs r.wide (suc (length t)) t) [])
            (strip-inner n pairs kept)
          ∙ (ap (λ ps. assign_tokens n r ps []) (find_pairs-inner n r.wide pairs kept)
              ∙ assign_tokens-append pairs [] kept reads once (Apart-nil pairs)))
