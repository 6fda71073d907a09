-- ===== src/Prelude/Results.antt =====
-- The outcome of an operation that may panic.
use mathlib.Core.Bool.{Bool, true, false}
use mathlib.Core.Option.{Option, none, some}

-- Go's run-time panics, the source's own, and a loop whose fuel ran out, which is no behaviour of
-- the code.
pub data Fault : Type 0 where
  index_out_of_range nil_dereference divide_by_zero bad_argument violation out_of_fuel : Fault

pub data Result {ℓ} (A : Type ℓ) : Type ℓ where
  panic : Fault → Result A
  ok : A → Result A

-- A nil pointer, or an index past the end.
abbrev pub or_panic {ℓ} : {A : Type ℓ} → Option A → Fault → Result A
or_panic (some a) fault = ok a
or_panic none fault = panic fault

-- if !c { panic(...) }
abbrev pub require : Bool → Fault → Result (Unit {0})
require false fault = panic fault
require true fault = ok tt

-- The next statement runs once the one before has returned.
infixl 5 ◌>>=◌
abbrev pub ◌>>=◌ {κ ℓ} :
    {Next : Type κ} {Value : Type ℓ} → Result Value → (Value → Result Next) → Result Next
panic fault >>= next = panic fault
ok value >>= next = next value

infixl 5 ◌>>◌
abbrev pub ◌>>◌ {κ} : {Next : Type κ} → Result (Unit {0}) → Result Next → Result Next
panic fault >> next = panic fault
ok done >> next = next
