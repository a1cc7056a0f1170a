-- ===== src/Diagnostics/Target.antt =====
-- `validate_probe_target` (app/monitoring/net_diagnostics.py): what may become an argument of ping.
-- Whether a text is an IP address is a parameter.
use mathlib.Core.Path.{subst}
use palworld_server_service.Common.{
  ℕ, leb, ◌==◌, ◌≡◌, refl, Bool, true, false, ◌&&◌, ◌||◌, not, List, [], ◌∷◌, length, arith,
  if◌then◌else◌, Bool-cases, inl, inr,
}
use palworld_server_service.Common.Text.{
  Text, codes, text_eq, starts_with, split_on, strip, push_part,
}
use palworld_server_service.Common.Outcome.{Outcome, ok, err, value_error}

abbrev pub is_alphanumeric_code : ℕ → Bool
is_alphanumeric_code c =
    ((leb 97 c && leb c 122) || (leb 65 c && leb c 90)) || (leb 48 c && leb c 57)

abbrev pub is_label_code : ℕ → Bool
is_label_code c = is_alphanumeric_code c || c == b'-'

-- The characters after the first: letters, digits and hyphens, a hyphen not at the end.
unfoldable pub label_rest : Text → Bool
label_rest [] = true
label_rest (c ∷ []) = is_alphanumeric_code c
label_rest (c ∷ d ∷ t) = is_label_code c && label_rest (d ∷ t)

-- [a-zA-Z0-9](?:[a-zA-Z0-9-]{0,61}[a-zA-Z0-9])?
abbrev pub is_label : Text → Bool
is_label [] = false
is_label (c ∷ t) = (is_alphanumeric_code c && label_rest t) && leb (length t) 62

abbrev pub all_labels : List Text → Bool
all_labels [] = true
all_labels (label ∷ labels) = is_label label && all_labels labels

-- Labels with a dot between each two. No text that is matched ends in a newline: it is stripped.
unfoldable pub is_hostname : Text → Bool
is_hostname t = all_labels (split_on b'.' t)

module _ (is_ip_address : Text → Bool) where
  abbrev pub validate_clean : Text → Outcome Text
  validate_clean clean =
      if text_eq clean [] || starts_with (codes "-") clean
      then err value_error
      else if is_ip_address clean
      then ok clean
      else if leb (length clean) 253 && is_hostname clean
      then ok clean
      else err value_error

  unfoldable pub validate_probe_target : Text → Outcome Text
  validate_probe_target target = validate_clean (strip target)

-- A character of a host name: a letter, a digit, a hyphen or a dot.
abbrev pub is_host_code : ℕ → Bool
is_host_code c = is_label_code c || c == b'.'

abbrev pub all_host_codes : Text → Bool
all_host_codes [] = true
all_host_codes (c ∷ t) = is_host_code c && all_host_codes t

abbrev all_label_codes : Text → Bool
all_label_codes [] = true
all_label_codes (c ∷ t) = is_label_code c && all_label_codes t

abbrev all_parts : List Text → Bool
all_parts [] = true
all_parts (part ∷ more) = all_label_codes part && all_parts more

label_rest-codes : (t : Text) → label_rest t ≡ true → all_label_codes t ≡ true
unfolding label_rest
label_rest-codes [] h = refl
label_rest-codes (c ∷ []) h = ground arith
label_rest-codes (c ∷ d ∷ t) h = ground (arith, label_rest-codes (d ∷ t))

is_label-codes : (t : Text) → is_label t ≡ true → all_label_codes t ≡ true
is_label-codes [] h = refl
is_label-codes (c ∷ t) h = ground (arith, label_rest-codes t)

all_labels-parts : (labels : List Text) → all_labels labels ≡ true → all_parts labels ≡ true
all_labels-parts [] h = refl
all_labels-parts (label ∷ labels) h = ground (arith, is_label-codes label, all_labels-parts labels)

-- Parts of label characters come from a text of label characters and dots.
push_part-codes :
    (c : ℕ) (parts : List Text)
    → all_parts (push_part (c == b'.') c parts) ≡ true
    → (is_host_code c ≡ true) × (all_parts parts ≡ true)
push_part-codes c parts h = split (c == b'.') refl parts h
  where
    split :
        (b : Bool)
        → (c == b'.') ≡ b
        → (ps : List Text) → all_parts (push_part b c ps) ≡ true
        → (is_host_code c ≡ true) × (all_parts ps ≡ true)
    split true e ps k = (ground arith, ground arith)
    split false e [] k = (ground arith, refl)
    split false e (p ∷ ps) k = (ground arith, ground arith)

split_on-codes : (t : Text) → all_parts (split_on b'.' t) ≡ true → all_host_codes t ≡ true
unfolding split_on
split_on-codes [] h = refl
split_on-codes (c ∷ t) h =
    let both = push_part-codes c (split_on b'.' t) h in simp (both.0, split_on-codes t both.1) refl

module _ (is_ip_address : Text → Bool) where
  -- What a probe may be given: no flag, and an address or a text of host name characters.
  abbrev pub IsSafe : Text → Type 0
  IsSafe t =
      (starts_with (codes "-") t ≡ false)
      × ((not (text_eq t []) ≡ true) × ((is_ip_address t || all_host_codes t) ≡ true))

  Accepts : Outcome Text → Type 0
  Accepts (ok t) = IsSafe t
  Accepts (err e) = Unit

  clean-Accepts : (clean : Text) → Accepts (validate_clean is_ip_address clean)
  unfolding Accepts is_hostname
  clean-Accepts clean = elim (Bool-cases (text_eq clean [] || starts_with (codes "-") clean)) [
    | inl bad ↦ simp bad tt
    | inr good ↦
        let named : not (text_eq clean []) ≡ true = ground (arith, good) in
        let no_flag : starts_with (codes "-") clean ≡ false = ground (arith, good) in
        elim (Bool-cases (is_ip_address clean)) [
          | inl address ↦ simp (good, address) (no_flag, (named, refl))
          | inr name ↦
              elim (Bool-cases (leb (length clean) 253 && all_labels (split_on b'.' clean))) [
                | inl host ↦
                    let plain : all_host_codes clean ≡ true =
                      split_on-codes clean
                        (all_labels-parts (split_on b'.' clean) (ground (arith, host))) in
                    simp (good, name, host) (no_flag, (named, plain))
                | inr wrong ↦ simp (good, name, wrong) tt
              ]
        ]
  ]

  -- A target that is accepted is no flag of the command it is given to: it is not empty, does not
  -- begin with a hyphen, and is an IP address or made of letters, digits, hyphens and dots.
  pub validate_probe_target-IsSafe :
      (target clean : Text) → validate_probe_target is_ip_address target ≡ ok clean → IsSafe clean
  unfolding validate_probe_target Accepts
  validate_probe_target-IsSafe target clean e = subst Accepts e (clean-Accepts (strip target))
