-- ===== src/Config/Trimmed.antt =====
-- That stripping leaves alone what `serialize_ini_settings` (app/config_manager/parser.py) writes.
use mathlib.Core.List.{append_assoc, append-nil, reverse, reverse-append, reverse-reverse}
use palworld_server_service.Common.{
  ℕ, ◌≡◌, refl, sym, ap, ◌∙◌, inl, inr, true, false, [], ◌∷◌, ◌++◌, arith, All,
}
use palworld_server_service.Common.Text.{Text, codes, strip, lstrip, is_space, join_on}
use palworld_server_service.Config.Settings.{
  Numbers, Value, flag, real, whole, text, other, Settings, show_value, show_pair, quoted,
}
use palworld_server_service.Config.Injection.{is_bracketed}
use palworld_server_service.Config.Parsing.{is_ascii_word}
use palworld_server_service.Config.Scanner.{
  EndsWell, IsPlain, IsWritten, IsKept, following, KeptPair, bracketed,
}
use palworld_server_service.Config.Pairs.{inner, inner-following}

pub strip-EndsWell :
    (c : ℕ) (t : Text) → is_space c ≡ false → EndsWell (c ∷ t) → strip (c ∷ t) ≡ c ∷ t
unfolding strip
strip-EndsWell c t begins (y, (d, (e, ends))) =
    let front : lstrip (c ∷ t) ≡ c ∷ t = simp begins refl in
    let turned : reverse (c ∷ t) ≡ d ∷ reverse y = ap reverse e ∙ reverse-append y (d ∷ []) in
    let back : lstrip (d ∷ reverse y) ≡ d ∷ reverse y = simp ends refl in
    ap (λ u. reverse (lstrip (reverse u))) front
    ∙ (ap (λ u. reverse (lstrip u)) turned
        ∙ (ap reverse back ∙ (ap reverse (sym turned) ∙ reverse-reverse (c ∷ t))))

EndsWell-append : (t u : Text) → EndsWell u → EndsWell (t ++ u)
EndsWell-append t u (y, (d, (e, ends))) =
    (t ++ y, (d, (ap (λ v. t ++ v) e ∙ sym (append_assoc t y (d ∷ [])), ends)))

EndsWell-path : (t u : Text) → t ≡ u → EndsWell u → EndsWell t
EndsWell-path t u p (y, (d, (e, ends))) = (y, (d, (p ∙ e, ends)))

pub strip-IsPlain : (t : Text) → IsPlain t → strip t ≡ t
strip-IsPlain [] plain = absurd (ground (arith, plain.begins))
strip-IsPlain (c ∷ t) plain = strip-EndsWell c t (ground (arith, plain.begins)) plain.ends_well

module _ (n : Numbers) where
  text-EndsWell : (t : Text) → IsWritten n t → EndsWell (show_value n (text t))
  text-EndsWell t (inl (bare, h)) =
      EndsWell-path _ (quoted n t) (simp bare refl) (b'"' ∷ t, (b'"', (refl, refl)))
  text-EndsWell t (inr (inside, (e, h))) =
      let shut = ap (is_bracketed n) e ∙ bracketed n inside in
      EndsWell-path _ t (simp shut refl) (EndsWell-path t _ e (b'(' ∷ inside, (b')', (refl, refl))))

  show_value-EndsWell : (v : Value n) → IsKept n v → EndsWell (show_value n v)
  show_value-EndsWell (flag true) kept = (codes "Tru", (b'e', (refl, refl)))
  show_value-EndsWell (flag false) kept = (codes "Fals", (b'e', (refl, refl)))
  show_value-EndsWell (real x) kept = kept.ends_well
  show_value-EndsWell (whole i) kept = kept.ends_well
  show_value-EndsWell (text t) kept = text-EndsWell t kept
  show_value-EndsWell (other t) kept = absurd kept

  show_pair-EndsWell : (k : Text) (v : Value n) → IsKept n v → EndsWell (show_pair n (k, v))
  show_pair-EndsWell k v kept =
      EndsWell-append k (b'=' ∷ show_value n v)
        (EndsWell-append (b'=' ∷ []) (show_value n v) (show_value-EndsWell v kept))

  shown-EndsWell :
      (k : Text) (v : Value n) (pairs : Settings n)
      → IsKept n v
      → All (KeptPair n) pairs
      → EndsWell (show_pair n (k, v) ++ following n pairs)
  unfolding following
  shown-EndsWell k v [] kept rest =
      EndsWell-path _ _ (append-nil (show_pair n (k, v))) (show_pair-EndsWell k v kept)
  shown-EndsWell k v ((j, w) ∷ pairs) kept rest =
      EndsWell-append (show_pair n (k, v)) _
        (EndsWell-append (b',' ∷ []) _ (shown-EndsWell j w pairs rest.0.1 rest.1))

  word-not-space : (c : ℕ) → is_ascii_word c ≡ true → is_space c ≡ false
  word-not-space c h = ground arith

  pub strip-inner :
      (pairs : Settings n) → All (KeptPair n) pairs → strip (inner n pairs) ≡ inner n pairs
  unfolding join_on strip
  strip-inner [] kept = refl
  strip-inner (([], v) ∷ pairs) kept = absurd (ground (arith, kept.0.0))
  strip-inner ((c ∷ k, v) ∷ pairs) kept =
      let e = inner-following n (c ∷ k, v) pairs in
      ap strip e
      ∙ (strip-EndsWell c _ (word-not-space c (ground (arith, kept.0.0)))
            (shown-EndsWell (c ∷ k) v pairs kept.0.1 kept.1)
          ∙ sym e)
