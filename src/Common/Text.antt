-- ===== src/Common/Text.antt =====
-- Text that the program takes apart: a list of code points, with Python's `split`, `strip`,
-- `startswith` and `==`.
use Prim.Native.Char.{code}
use mathlib.Core.List.{reverse}
use palworld_server_service.Common.{
  ℕ, String, ◌≡◌, refl, sym, ap, ◌∙◌, ◌≢◌, Bool, true, false, ◌&&◌, ◌||◌, List, [], ◌∷◌, ◌++◌,
  arith, leb, ◌==◌, if◌then◌else◌, any_where,
}

abbrev pub Text : Type 0
Text = List ℕ

abbrev pub codes : String → Text
codes String.[] = []
codes (String.◌∷◌ c s) = code c ∷ codes s

unfoldable pub text_eq : Text → Text → Bool
text_eq [] [] = true
text_eq [] (d ∷ t) = false
text_eq (c ∷ s) [] = false
text_eq (c ∷ s) (d ∷ t) = c == d && text_eq s t

pub text_eq_refl : (s : Text) → text_eq s s ≡ true
unfolding text_eq
text_eq_refl [] = refl
text_eq_refl (c ∷ s) = ground (arith, text_eq_refl s)

pub text_eq→eq : (s t : Text) → text_eq s t ≡ true → s ≡ t
unfolding text_eq
text_eq→eq [] [] h = refl
text_eq→eq [] (d ∷ t) h = cc
text_eq→eq (c ∷ s) [] h = cc
text_eq→eq (c ∷ s) (d ∷ t) h = ground (arith, text_eq→eq s t)

-- s.split(d)
abbrev pub push_part : Bool → ℕ → List Text → List Text
push_part true c parts = [] ∷ parts
push_part false c [] = (c ∷ []) ∷ []
push_part false c (p ∷ ps) = (c ∷ p) ∷ ps

unfoldable pub split_on : ℕ → Text → List Text
split_on d [] = [] ∷ []
split_on d (c ∷ s) = push_part (c == d) c (split_on d s)

abbrev pub is_code : ℕ → ℕ → Bool
is_code d c = c == d

-- Whitespace among the code points below 256.
abbrev pub is_space : ℕ → Bool
is_space c = (leb 9 c && leb c 13) || ((leb 28 c && leb c 32) || (c == 133 || c == 160))

abbrev pub lstrip : Text → Text
lstrip [] = []
lstrip (c ∷ s) = let rest = lstrip s in if is_space c then rest else c ∷ s

unfoldable pub strip : Text → Text
strip s = reverse (lstrip (reverse (lstrip s)))

unfoldable pub starts_with : Text → Text → Bool
starts_with [] s = true
starts_with (c ∷ p) [] = false
starts_with (c ∷ p) (d ∷ s) = c == d && starts_with p s

-- A text with no separator splits into itself.
pub split_on_one : (d : ℕ) (s : Text) → any_where (is_code d) s ≡ false → split_on d s ≡ s ∷ []
unfolding split_on
split_on_one d [] h = refl
split_on_one d (c ∷ s) h = ground (arith, split_on_one d s)

-- Two texts with no separator, joined by one, split into the two.
pub split_on_join :
    (d : ℕ) (s t : Text)
    → any_where (is_code d) s ≡ false
    → any_where (is_code d) t ≡ false
    → split_on d (s ++ d ∷ t) ≡ s ∷ t ∷ []
unfolding split_on
split_on_join d [] t hs ht = ground (arith, split_on_one d t)
split_on_join d (c ∷ s) t hs ht = ground (arith, split_on_join d s t)

unfoldable pub join_on : ℕ → List Text → Text
join_on d [] = []
join_on d (p ∷ []) = p
join_on d (p ∷ q ∷ ps) = p ++ d ∷ join_on d (q ∷ ps)

split_on-ne-nil : (d : ℕ) (s : Text) → split_on d s ≢ []
unfolding split_on
split_on-ne-nil d [] = ground arith
split_on-ne-nil d (c ∷ s) = ground (arith, split_on-ne-nil d s)

join_on-push_part :
    (d c : ℕ) (parts : List Text)
    → parts ≢ []
    → join_on d (push_part (c == d) c parts) ≡ c ∷ join_on d parts
unfolding join_on
join_on-push_part d c [] h = absurd (h refl)
join_on-push_part d c (p ∷ []) h = ground arith
join_on-push_part d c (p ∷ q ∷ ps) h = ground arith

-- Splitting loses nothing.
pub join_on-split_on : (d : ℕ) (s : Text) → join_on d (split_on d s) ≡ s
unfolding split_on
join_on-split_on d [] = unfold join_on in refl
join_on-split_on d (c ∷ s) =
    join_on-push_part d c (split_on d s) (split_on-ne-nil d s)
    ∙ ap (λ t. c ∷ t) (join_on-split_on d s)

-- A text that splits in two is the two parts with the separator between.
pub split_on-two : (d : ℕ) (s p q : Text) → split_on d s ≡ p ∷ q ∷ [] → s ≡ p ++ d ∷ q
unfolding join_on
split_on-two d s p q h = sym (join_on-split_on d s) ∙ ap (join_on d) h
