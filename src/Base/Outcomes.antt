-- ===== src/Base/Outcomes.antt =====
-- include/storage/Utils.hpp: Result, and the exception that ASSERT_ON throws.
use mathlib.Core.Bool.{Bool, true, false}

-- enum class Result
pub data Result : Type 0 where
  success failure : Result

-- What leaves a function other than by return. The last three are the model's own: an iterator that
-- stands at no element, an access outside of mapped memory, and a loop that runs out of fuel.
pub data Exception : Type 0 where
  logic_error : Exception
  invalid_argument : Exception
  dangling_iterator : Exception
  segmentation_fault : Exception
  out_of_fuel : Exception

pub data Outcome {ℓ} (A : Type ℓ) : Type ℓ where
  ok : A → Outcome A
  throw : Exception → Outcome A

infixl 5 ◌>>=◌ ◌>>◌
abbrev pub ◌>>=◌ {ℓ κ} : {A : Type ℓ} {B : Type κ} → Outcome A → (A → Outcome B) → Outcome B
ok a >>= f = f a
throw e >>= f = throw e

abbrev pub ◌>>◌ {ℓ} : {B : Type ℓ} → Outcome (Unit {0}) → Outcome B → Outcome B
m >> k = m >>= λ _. k

-- ASSERT_ON: throws if the condition holds.
abbrev pub assert_on : Bool → Outcome (Unit {0})
assert_on true = throw logic_error
assert_on false = ok tt
