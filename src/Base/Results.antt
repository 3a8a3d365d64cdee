-- ===== src/Base/Results.antt =====
-- How a Go call ends: with a value, with a non-nil error, or with a run-time panic.
use mathlib.Core.Path.{◌≡◌, refl}

pub data Outcome {ℓ} (E : Type 0) (A : Type ℓ) : Type ℓ where
  ok : A → Outcome E A
  err : E → Outcome E A
  panic : Outcome E A

infixl 5 ◌>>=◌
abbrev pub ◌>>=◌ {ℓ κ} :
    {E : Type 0} {A : Type ℓ} {B : Type κ} → Outcome E A → (A → Outcome E B) → Outcome E B
panic >>= k = panic
err e >>= k = err e
ok a >>= k = k a

infixl 5 ◌>>◌
abbrev pub ◌>>◌ {ℓ} : {E : Type 0} {B : Type ℓ} → Outcome E (Unit {0}) → Outcome E B → Outcome E B
first >> next = first >>= λ done. next

-- Inversion of a successful bind, for proofs where the parts stay shut.
pub >>=-eq-ok {ℓ κ} :
    {E : Type 0} {A : Type ℓ} {B : Type κ} (m : Outcome E A) (k : A → Outcome E B) {b : B}
    → (m >>= k) ≡ ok b
    → (a : A) × (m ≡ ok a) × (k a ≡ ok b)
>>=-eq-ok panic k e = cc
>>=-eq-ok (err x) k e = cc
>>=-eq-ok (ok a) k e = (a, refl, e)
