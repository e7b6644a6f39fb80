-- ===== src/Common/Result.antt =====
-- A call that returns a value or throws.
use mathlib.Core.Path.{◌≡◌, refl}
use mathlib.Core.Logic.{◌⊎◌, inl, inr}
use native.Mathlib.Omega.{arith}

pub data Result (Thrown Value : Type 0) : Type 0 where
  err : Thrown → Result Thrown Value
  ok : Value → Result Thrown Value

-- The rest of the code after a call that may throw.
infixl 5 ◌>>=◌
abbrev pub ◌>>=◌ :
    {Thrown Value Next : Type 0}
    → Result Thrown Value
    → (Value → Result Thrown Next)
    → Result Thrown Next
call >>= rest = elim call [ err thrown ↦ err thrown | ok value ↦ rest value ]

-- Code that returns had a call that returned.
pub >>=-eq-ok :
    {Thrown Value Next : Type 0} (call : Result Thrown Value) (rest : Value → Result Thrown Next)
    {answer : Next}
    → (call >>= rest) ≡ ok answer
    → (value : Value) × (call ≡ ok value) × (rest value ≡ ok answer)
>>=-eq-ok (err thrown) rest h = ground arith
>>=-eq-ok (ok value) rest h = (value, refl, h)

-- To split on a call and keep the equation.
pub Result-cases :
    {Thrown Value : Type 0} (call : Result Thrown Value)
    → ((thrown : Thrown) × (call ≡ err thrown)) ⊎ ((value : Value) × (call ≡ ok value))
Result-cases (err thrown) = inl (thrown, refl)
Result-cases (ok value) = inr (value, refl)
