-- ===== src/Common/Keeps.antt =====
-- Invariants of actions, a rule for each way to build one.
use palworld_server_service.Common.{Bool, true, false, if◌then◌else◌}
use palworld_server_service.Common.Outcome.{
  Error, Outcome, ok, err, Action, pure, raise, ◌>>=◌, ◌>>◌, continue,
}

-- `m` keeps `P`, whether it returns or raises.
pub record Keeps {ℓ} {S A : Type ℓ} (P : S → Type ℓ) (m : Action S A) : Type ℓ where
  pub at : (s : S) → P s → P (m s).1

module _ {ℓ} {S A : Type ℓ} {P : S → Type ℓ} where
  pub Keeps-pure : (a : A) → Keeps P (pure a)
  Keeps-pure a = record { at = λ s h. h }

  pub Keeps-raise : (e : Error) → Keeps P (raise {A = A} e)
  Keeps-raise e = record { at = λ s h. h }

-- A branch of a state-dependent test.
pub if-keeps {ℓ} :
    {S A : Type ℓ} (P : S → Type ℓ) (b : Bool) (m n : Outcome A × S)
    → P m.1
    → P n.1
    → P (if b then m else n).1
if-keeps P true m n pm pn = pm
if-keeps P false m n pm pn = pn

module _ {ℓ} {S A B : Type ℓ} {P : S → Type ℓ} where
  pub continue-keeps :
      (r : Outcome A) (f : A → Action S B) (s : S)
      → ((a : A) → Keeps P (f a))
      → P s
      → P (continue r f s).1
  continue-keeps (ok a) f s kf h = (kf a).at s h
  continue-keeps (err e) f s kf h = h

  pub Keeps-bind :
      (m : Action S A) (f : A → Action S B)
      → Keeps P m
      → ((a : A) → Keeps P (f a))
      → Keeps P (m >>= f)
  Keeps-bind m f km kf = record { at = λ s h. continue-keeps (m s).0 f (m s).1 kf (km.at s h) }

  pub Keeps-then : (m : Action S A) (n : Action S B) → Keeps P m → Keeps P n → Keeps P (m >> n)
  Keeps-then m n km kn = Keeps-bind m (λ _. n) km (λ _. kn)
