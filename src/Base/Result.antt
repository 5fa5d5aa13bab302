-- ===== src/Base/Result.antt =====
-- Results of code that may raise, generic in the exceptions.
use mathlib.Core.Path.{◌≡◌, refl}

pub data Result {ℓ} (E : Type ℓ) (A : Type ℓ) : Type ℓ where
  ok : A → Result E A
  err : E → Result E A

module _ {ℓ} {E A B : Type ℓ} where
  infixl 5 ◌>>=◌
  abbrev pub ◌>>=◌ : Result E A → (A → Result E B) → Result E B
  ok a >>= f = f a
  err e >>= f = err e

module _ {ℓ} {E A B : Type ℓ} where
  -- Inversion of a bind that returned.
  pub >>=-eq-ok :
      (first : Result E A) (next : A → Result E B) {y : B}
      → (first >>= next) ≡ ok y
      → (x : A) × (first ≡ ok x) × (next x ≡ ok y)
  >>=-eq-ok (ok x) next done = (x, refl, done)
  >>=-eq-ok (err e) next done = cc
