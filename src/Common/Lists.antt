-- ===== src/Common/Lists.antt =====
-- Lists over the native numbers, and the list operations that stand for SQL statements over a
-- table of rows: SELECT of the first match, SELECT COUNT, DELETE and UPDATE, each with a WHERE test.
use Prim.Native.Nat.{ℕ, zero, suc, ◌+◌, min}
use mathlib.Core.Path.{◌≡◌, refl, subst}
use mathlib.Core.Logic.{inl, inr}
use mathlib.Core.Bool.{Bool, true, false, ◌||◌}
use mathlib.Core.Option.{Option, none, some}
use mathlib.Core.List.{List, [], ◌∷◌, ◌++◌}
use native.Mathlib.Omega.{arith}
use palworld_server_service.Common.Tests.{if◌then◌else◌, Bool-cases}

abbrev pub All {ℓ κ} : {A : Type ℓ} → (A → Type κ) → List A → Type κ
All P [] = Unit
All P (x ∷ xs) = P x × All P xs

module _ {ℓ} {A : Type ℓ} where
  abbrev pub length : List A → ℕ
  length [] = 0
  length (x ∷ xs) = suc (length xs)

  abbrev pub take : ℕ → List A → List A
  take zero xs = []
  take (suc n) [] = []
  take (suc n) (x ∷ xs) = x ∷ take n xs

  abbrev pub drop : ℕ → List A → List A
  drop zero xs = xs
  drop (suc n) [] = []
  drop (suc n) (x ∷ xs) = drop n xs

  abbrev pub find_where : (A → Bool) → List A → Option A
  find_where p [] = none
  find_where p (x ∷ xs) = if p x then some x else find_where p xs

  abbrev pub any_where : (A → Bool) → List A → Bool
  any_where p [] = false
  any_where p (x ∷ xs) = p x || any_where p xs

  abbrev pub count_where : (A → Bool) → List A → ℕ
  count_where p [] = 0
  count_where p (x ∷ xs) = (if p x then 1 else 0) + count_where p xs

  abbrev pub keep_where : (A → Bool) → List A → List A
  keep_where p [] = []
  keep_where p (x ∷ xs) = let rest = keep_where p xs in if p x then x ∷ rest else rest

  abbrev pub delete_where : (A → Bool) → List A → List A
  delete_where p [] = []
  delete_where p (x ∷ xs) = let rest = delete_where p xs in if p x then rest else x ∷ rest

  abbrev pub update_where : (A → Bool) → (A → A) → List A → List A
  update_where p f [] = []
  update_where p f (x ∷ xs) = (if p x then f x else x) ∷ update_where p f xs

  pub length-append : (xs ys : List A) → length (xs ++ ys) ≡ length xs + length ys
  length-append [] ys = omega arith
  length-append (x ∷ xs) ys = omega (arith, length-append xs ys)

  pub length-take : (n : ℕ) (xs : List A) → length (take n xs) ≡ min n (length xs)
  length-take zero xs = omega arith
  length-take (suc n) [] = omega arith
  length-take (suc n) (x ∷ xs) = omega (arith, length-take n xs)

  pub count_where-append :
      (p : A → Bool) (xs ys : List A)
      → count_where p (xs ++ ys) ≡ count_where p xs + count_where p ys
  count_where-append p [] ys = omega arith
  count_where-append p (x ∷ xs) ys = omega (arith, count_where-append p xs ys)

  pub All-append {κ} : (P : A → Type κ) (xs ys : List A) → All P xs → All P ys → All P (xs ++ ys)
  All-append P [] ys hx hy = hy
  All-append P (x ∷ xs) ys hx hy = (hx.0, All-append P xs ys hx.1 hy)

  pub All-delete_where {κ} :
      (P : A → Type κ) (p : A → Bool) (xs : List A) → All P xs → All P (delete_where p xs)
  All-delete_where P p [] h = tt
  All-delete_where P p (x ∷ xs) h = ground (arith, All-delete_where P p xs h.1)

  -- A row that is found passes the test and has whatever every row has.
  pub find_where-All {κ} :
      (P : A → Type κ) (p : A → Bool) (xs : List A) (x : A)
      → All P xs
      → find_where p xs ≡ some x
      → P x
  find_where-All P p [] x h e = absurd (ground arith)
  find_where-All P p (y ∷ xs) x h e = elim (Bool-cases (p y)) [
    | inl hit ↦ let same : y ≡ x = ground arith in subst P same h.0
    | inr miss ↦ find_where-All P p xs x h.1 (rw miss at e)
  ]

  pub find_where-true : (p : A → Bool) (xs : List A) (x : A) → find_where p xs ≡ some x → p x ≡ true
  find_where-true p [] x e = absurd (ground arith)
  find_where-true p (y ∷ xs) x e = ground (arith, find_where-true p xs x)

  pub find_where-none :
      (p : A → Bool) (xs : List A) → find_where p xs ≡ none → any_where p xs ≡ false
  find_where-none p [] e = refl
  find_where-none p (y ∷ xs) e = ground (arith, find_where-none p xs)

  pub find_where-any :
      (p : A → Bool) (xs : List A) (x : A) → find_where p xs ≡ some x → any_where p xs ≡ true
  find_where-any p [] x e = absurd (ground arith)
  find_where-any p (y ∷ xs) x e = ground (arith, find_where-any p xs x)
