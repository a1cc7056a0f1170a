-- ===== src/Files/Paths.antt =====
-- A directory as the list of its names with what stands under each, and the system calls on it. The
-- same lists serve for files and for whole directories that are renamed.
use palworld_server_service.Common.{
  ◌≡◌, refl, ap, ◌∙◌, Bool, true, false, Option, none, some, List, [], ◌∷◌, arith, if◌then◌else◌,
  Bool-cases, inl, inr,
}
use palworld_server_service.Common.Text.{Text, text_eq, text_eq_refl, text_eq→eq}

module _ {A : Type 0} where
  unfoldable pub lookup : Text → List (Text × A) → Option A
  lookup p [] = none
  lookup p ((q, e) ∷ d) = if text_eq q p then some e else lookup p d

  unfoldable pub remove : Text → List (Text × A) → List (Text × A)
  remove p [] = []
  remove p ((q, e) ∷ d) = let rest = remove p d in if text_eq q p then rest else (q, e) ∷ rest

  abbrev pub put : Text → A → List (Text × A) → List (Text × A)
  put p e d = (p, e) ∷ remove p d

  -- rename: what stands at the second name is replaced.
  abbrev pub moved : Text → Text → A → List (Text × A) → List (Text × A)
  moved p q e d = put q e (remove p d)

  abbrev is_some : Option A → Bool
  is_some none = false
  is_some (some e) = true

  abbrev pub exists : Text → List (Text × A) → Bool
  exists p d = is_some (lookup p d)

  pub exists-none : (p : Text) (d : List (Text × A)) → lookup p d ≡ none → exists p d ≡ false
  exists-none p d e = rw e refl

  pub exists-some :
      (p : Text) (e : A) (d : List (Text × A)) → lookup p d ≡ some e → exists p d ≡ true
  exists-some p e d h = rw h refl

  pub lookup-remove : (p : Text) (d : List (Text × A)) → lookup p (remove p d) ≡ none
  unfolding lookup remove
  lookup-remove p [] = refl
  lookup-remove p ((q, e) ∷ d) = ground (arith, lookup-remove p d)

  pub lookup-remove_other :
      (p q : Text) (d : List (Text × A)) → text_eq p q ≡ false → lookup q (remove p d) ≡ lookup q d
  unfolding lookup remove
  lookup-remove_other p q [] h = refl
  lookup-remove_other p q ((r, e) ∷ d) h = elim (Bool-cases (text_eq r p)) [
    | inl same ↦
        let other : text_eq r q ≡ false = ap (λ t. text_eq t q) (text_eq→eq r p same) ∙ h in
        simp (same, other) (lookup-remove_other p q d h)
    | inr differs ↦ ground (arith, lookup-remove_other p q d h, differs)
  ]

  pub lookup-put : (p : Text) (e : A) (d : List (Text × A)) → lookup p (put p e d) ≡ some e
  unfolding lookup
  lookup-put p e d = rw (text_eq_refl p) refl

  pub lookup-put_other :
      (p q : Text) (e : A) (d : List (Text × A))
      → text_eq p q ≡ false
      → lookup q (put p e d) ≡ lookup q d
  unfolding lookup
  lookup-put_other p q e d h = rw h (lookup-remove_other p q d h)
