-- ===== src/Base/Fail.antt =====
-- The outcome of code that can break the memory rules of C++: a value, or the fault.
use mathlib.Core.Path.{◌≡◌, refl}
use mathlib.Core.Option.{Option, none, some}
use mathlib.Core.Bool.{Bool, true, false}

-- What the source does not check: a read or a write outside a buffer, a null pointer followed, a read
-- of memory that has been freed.
pub data Fault : Type 0 where
  read_out_of_bounds write_out_of_bounds null_pointer use_after_free no_fuel : Fault

pub data Result {ℓ} (Value : Type ℓ) : Type ℓ where
  fault : Fault → Result Value
  ok : Value → Result Value

-- A pointer or an element that has to be there.
abbrev pub or_fault {ℓ} : {Value : Type ℓ} → Option Value → Fault → Result Value
or_fault (some found) cause = ok found
or_fault none cause = fault cause

-- `ensure b e` goes on where `b` holds.
abbrev pub ensure : Bool → Fault → Result (Unit {0})
ensure false cause = fault cause
ensure true cause = ok tt

infixl 5 ◌>>=◌
-- The first fault ends a chain.
abbrev pub ◌>>=◌ {ℓ κ} :
    {Value : Type ℓ} {Next : Type κ} (first : Result Value) (next : Value → Result Next)
    → Result Next
fault cause >>= next = fault cause
ok value >>= next = next value

infixl 5 ◌>>◌
-- A check, then what comes after it.
abbrev pub ◌>>◌ {ℓ} : {Next : Type ℓ} (check : Result (Unit {0})) (next : Result Next) → Result Next
check >> next = check >>= λ passed. next

pub ok_inj {ℓ} : {Value : Type ℓ} {x y : Value} → ok x ≡ ok y → x ≡ y
ok_inj same = cc

-- A chain that returns has returned at its first step.
pub >>=-cases {ℓ κ} :
    {Value : Type ℓ} {Next : Type κ} {result : Next} (first : Result Value)
    (next : Value → Result Next)
    → (first >>= next) ≡ ok result
    → (value : Value) × (first ≡ ok value) × (next value ≡ ok result)
>>=-cases (fault cause) next returned = cc
>>=-cases (ok value) next returned = (value, refl, returned)
