-- ===== src/Common/Outcome.antt =====
-- How a piece of C ends: with a value, by `exit`, by a failed `assert`, or in undefined behaviour.
use Prim.Native.Nat.{ℕ}
use mathlib.Core.Path.{◌≡◌, refl}
use mathlib.Core.Bool.{Bool, true, false}
use mathlib.Core.Option.{Option, none, some}

pub data Stop : Type 0 where
  exits : ℕ → Stop
  aborts : Stop
  faults : Stop

pub data Outcome {ℓ} (A : Type ℓ) : Type ℓ where
  ok : A → Outcome A
  stop : Stop → Outcome A

infixl 5 ◌>>=◌ ◌>>◌
abbrev pub ◌>>=◌ {ℓ κ} : {A : Type ℓ} {B : Type κ} → Outcome A → (A → Outcome B) → Outcome B
stop why >>= next = stop why
ok value >>= next = next value

-- A value that has to be there.
abbrev pub need {ℓ} : {A : Type ℓ} → Option A → Stop → Outcome A
need none why = stop why
need (some value) why = ok value

-- `if (!test) …`, where what follows ends the program.
abbrev pub guard : Bool → Stop → Outcome (Unit {0})
guard false why = stop why
guard true why = ok tt

abbrev pub ◌>>◌ {ℓ} : {B : Type ℓ} → Outcome (Unit {0}) → Outcome B → Outcome B
first >> second = first >>= λ nothing. second

-- A call that returned has returned from each of its steps.
pub >>=-eq-ok {ℓ κ} :
    {A : Type ℓ} {B : Type κ} (step : Outcome A) (next : A → Outcome B) {result : B}
    → (step >>= next) ≡ ok result
    → (value : A) × (step ≡ ok value) × (next value ≡ ok result)
>>=-eq-ok (stop why) next h = cc
>>=-eq-ok (ok value) next h = (value, refl, h)
