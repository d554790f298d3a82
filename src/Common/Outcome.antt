-- ===== src/Common/Outcome.antt =====
-- What a call of a C function comes to.
use mathlib.Core.Path.{◌≡◌, refl}

-- `abort` is a call of `abort()`; `fault` an access outside its object, of freed memory, or through
-- NULL or an uninitialised pointer;
-- `stuck` no behaviour of the program: a loop of the model ran out of fuel.
pub data Outcome {ℓ} (A : Type ℓ) : Type ℓ where
  ok : A → Outcome A
  abort : Outcome A
  fault : Outcome A
  stuck : Outcome A

infixl 5 ◌>>=◌
abbrev pub ◌>>=◌ {ℓ κ} : {A : Type ℓ} {B : Type κ} → Outcome A → (A → Outcome B) → Outcome B
ok a >>= f = f a
abort >>= f = abort
fault >>= f = fault
stuck >>= f = stuck

-- A result came out of the first call's result by the second call.
pub ran {ℓ κ} :
    {A : Type ℓ} {B : Type κ} (f : A → Outcome B) (b : B) (first : Outcome A)
    → (first >>= f) ≡ ok b
    → (a : A) × (f a ≡ ok b) × (first ≡ ok a)
ran f b abort e = cc
ran f b fault e = cc
ran f b stuck e = cc
ran f b (ok a) e = (a, e, refl)
