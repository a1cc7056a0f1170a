-- ===== src/Config/Protection.antt =====
-- Which settings a merge can change, and which text it writes (app/config_manager).
use palworld_server_service.Common.{
  ◌≡◌, refl, sym, ap, ◌∙◌, Bool, true, false, not, Option, none, some, [], ◌∷◌, arith,
  if◌then◌else◌, keep_where, Bool-cases, inl, inr,
}
use palworld_server_service.Common.Text.{Text, text_eq, text_eq_refl, text_eq→eq}
use palworld_server_service.Config.Settings.{
  Numbers, Value, is_protected, Settings, get, assign, assign_where, key_is, read_to_json,
  get_public_view, merge,
}

-- Different texts are not both equal to a third.
text_eq-apart :
    (j k key : Text) → text_eq j k ≡ false → text_eq j key ≡ true → text_eq k key ≡ false
text_eq-apart j k key e f = elim (Bool-cases (text_eq k key)) [
  | inl g ↦
      let same : j ≡ k = text_eq→eq j key f ∙ sym (text_eq→eq k key g) in
      absurd (ground (arith, text_eq_refl k, rw same at e))
  | inr g ↦ g
]

module _ (n : Numbers) where
  -- The keys of a dictionary differ.
  abbrev pub IsDict : Settings n → Type 0
  IsDict [] = Unit {0}
  IsDict ((k, v) ∷ rest) = (get n k rest ≡ none) × IsDict rest

  -- A value where there is one, else another.
  abbrev pub or_else : Option (Value n) → Option (Value n) → Option (Value n)
  or_else none o = o
  or_else (some v) o = some v

  get-assign :
      (key k : Text) (v : Value n) (settings : Settings n)
      → get n key (assign n k v settings) ≡ (if text_eq k key then some v else get n key settings)
  get-assign key k v [] = refl
  get-assign key k v ((j, u) ∷ rest) = elim (Bool-cases (text_eq j k)) [
    | inl e ↦ let same : j ≡ k = text_eq→eq j k e in rw e (rw same (ground arith))
    | inr e ↦ rw e (elim (Bool-cases (text_eq j key)) [
      | inl f ↦ rw (f, text_eq-apart j k key e f) refl
      | inr f ↦ rw f (get-assign key k v rest)
    ])
  ]

  -- A loop of assignments gives a key that passes its value among the items, where there is one.
  get-assign_where :
      (passes : Text → Bool) (key : Text) (items settings : Settings n)
      → IsDict items
      → get n key (assign_where n passes items settings) ≡ (
          if passes key then or_else (get n key items) (get n key settings) else get n key settings)
  get-assign_where passes key [] settings d = ground arith
  get-assign_where passes key ((k, v) ∷ items) settings (fresh, d) =
      get-assign_where passes key items _ d ∙ (elim (Bool-cases (text_eq k key)) [
        | inl e ↦
            let same : k ≡ key = text_eq→eq k key e in
            let missing : get n key items ≡ none = ap (λ t. get n t items) (sym same) ∙ fresh in
            elim (Bool-cases (passes key)) [
              | inl f ↦ rw (f, missing, ap passes same ∙ f, get-assign key k v settings, e) refl
              | inr f ↦ rw (f, ap passes same ∙ f) refl
            ]
        | inr e ↦ elim (Bool-cases (passes k)) [
          | inl f ↦ rw (f, get-assign key k v settings, e) refl
          | inr f ↦ rw (f, e) refl
        ]
      ])

  get-keep_where :
      (passes : Text → Bool) (key : Text) (settings : Settings n)
      → get n key (keep_where (key_is n passes) settings)
        ≡ (if passes key then get n key settings else none)
  get-keep_where passes key [] = ground arith
  get-keep_where passes key ((k, v) ∷ rest) = elim (Bool-cases (text_eq k key)) [
    | inl e ↦
        let same : k ≡ key = text_eq→eq k key e in
        elim (Bool-cases (passes key)) [
          | inl f ↦ rw (ap passes same ∙ f, f, e) refl
          | inr f ↦ rw (ap passes same ∙ f, f) (get-keep_where passes key rest ∙ rw f refl)
        ]
    | inr e ↦ elim (Bool-cases (passes k)) [
      | inl f ↦ rw (f, e) (get-keep_where passes key rest)
      | inr f ↦ rw (f, e) (get-keep_where passes key rest)
    ]
  ]

  IsDict-keep_where :
      (passes : Text → Bool) (settings : Settings n)
      → IsDict settings
      → IsDict (keep_where (key_is n passes) settings)
  IsDict-keep_where passes [] d = tt
  IsDict-keep_where passes ((k, v) ∷ rest) (fresh, d) = elim (Bool-cases (passes k)) [
    | inl f ↦
        rw f (get-keep_where passes k rest ∙ rw (f, fresh) refl, IsDict-keep_where passes rest d)
    | inr f ↦ rw f (IsDict-keep_where passes rest d)
  ]

  -- What the web interface shows of a file: every setting that is not protected, and no protected
  -- one.
  pub public_view_hides :
      (key : Text) (live : Settings n)
      → get n key (get_public_view n (some live))
        ≡ (if is_protected key then none else get n key live)
  unfolding get_public_view read_to_json
  public_view_hides key live = get-keep_where (λ k. not (is_protected k)) key live ∙ ground arith

  -- Over dictionaries, a merge keeps each protected setting of the file as it is, whatever comes
  -- in, and gives every other setting its incoming value, where there is one, else the one of the
  -- file.
  pub merge_protects :
      (key : Text) (live incoming : Settings n)
      → IsDict live
      → IsDict incoming
      → get n key (merge n (some live) incoming) ≡ (
          if is_protected key
          then get n key live
          else or_else (get n key incoming) (get n key live))
  unfolding merge read_to_json
  merge_protects key live incoming dl di =
      get-assign_where (λ k. true) key _ _ (IsDict-keep_where is_protected live dl)
      ∙ rw
          (
            get-keep_where is_protected key live,
            get-assign_where (λ k. not (is_protected k)) key incoming live di,
          )
          (settle (is_protected key) (get n key live))
    where
      settle :
          (b : Bool) (o : Option (Value n))
          → or_else (if b then o else none) (if not b then or_else (get n key incoming) o else o)
            ≡ (if b then o else or_else (get n key incoming) o)
      settle true none = refl
      settle true (some v) = refl
      settle false o = refl
