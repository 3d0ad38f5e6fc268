-- ===== src/Base/Outcome.antt =====
-- Calls that may panic.
use mathlib.Core.Path.{◌≡◌, refl}

pub data Outcome (A : Type 0) : Type 0 where
  ok : A → Outcome A
  panic : Outcome A

infixl 5 ◌>>=◌
abbrev pub ◌>>=◌ : {A B : Type 0} → Outcome A → (A → Outcome B) → Outcome B
ok a >>= f = f a
panic >>= f = panic

-- Inversion of a bind that returned.
pub >>=-eq-ok :
    {A B : Type 0} (call : Outcome A) (rest : A → Outcome B) {result : B}
    → (call >>= rest) ≡ ok result
    → (x : A) × (call ≡ ok x) × (rest x ≡ ok result)
>>=-eq-ok (ok x) rest returned = (x, refl, returned)
>>=-eq-ok panic rest returned = cc
