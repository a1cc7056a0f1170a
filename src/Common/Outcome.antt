-- ===== src/Common/Outcome.antt =====
-- Python code that may raise while it mutates state. What was written before a raise stays written,
-- so the state comes back beside the error.
use Prim.Native.Nat.{ℕ}

-- The exceptions that reach a caller.
pub data Error : Type 0 where
  http : ℕ → Error
  integrity_error : Error
  runtime_error : Error
  permission_error : Error
  value_error : Error
  os_error : Error
  type_error : Error
  cancelled_error : Error
  database_error : Error
  timeout_error : Error

pub data Outcome {ℓ} (A : Type ℓ) : Type ℓ where
  ok : A → Outcome A
  err : Error → Outcome A

abbrev pub Action {ℓ} : Type ℓ → Type ℓ → Type ℓ
Action S A = S → Outcome A × S

module _ {ℓ} {S A : Type ℓ} where
  abbrev pub pure : A → Action S A
  pure a s = (ok a, s)

  abbrev pub raise : Error → Action S A
  raise e s = (err e, s)

  abbrev pub gets : (S → A) → Action S A
  gets f s = (ok (f s), s)

module _ {ℓ} {S A B : Type ℓ} where
  abbrev pub continue : Outcome A → (A → Action S B) → Action S B
  continue (ok a) f s = f a s
  continue (err e) f s = (err e, s)

  infixl 10 ◌>>=◌ ◌>>◌
  abbrev pub ◌>>=◌ : Action S A → (A → Action S B) → Action S B
  ◌>>=◌ m f s = let (r, s') = m s in continue r f s'

  abbrev pub ◌>>◌ : Action S A → Action S B → Action S B
  m >> n = m >>= λ _. n
