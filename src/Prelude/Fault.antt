-- ===== src/Prelude/Fault.antt =====
-- Results of code that may fault: a failed `assert`, a read of an uninitialised member, or an
-- operation that C++ leaves undefined, or an exception.
use mathlib.Core.Bool.{Bool, true, false}

infixl 5 ◌>>=◌ ◌>>◌
pub data Fault : Type 0 where
  assertion uninitialised div_by_zero signed_overflow shift_count invalid_argument : Fault

pub data Result {ℓ} (A : Type ℓ) : Type ℓ where
  err : Fault → Result A
  ok : A → Result A

-- `assert`, and the conditions that C++ or an exception puts on going on.
abbrev pub guard : Bool → Fault → Result (Unit {0})
guard false fault = err fault
guard true fault = ok tt

abbrev pub ◌>>◌ {κ} : {B : Type κ} → Result (Unit {0}) → Result B → Result B
err fault >> next = err fault
ok u >> next = next

abbrev pub ◌>>=◌ {ℓ κ} : {A : Type ℓ} {B : Type κ} → Result A → (A → Result B) → Result B
err fault >>= next = err fault
ok a >>= next = next a
