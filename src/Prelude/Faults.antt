-- ===== src/Prelude/Faults.antt =====
-- The outcome of code that can abort the process or throw: CHECK and LOG(FATAL) of glog, and
-- exceptions of the standard library. `undefined` is undefined behaviour.
use mathlib.Core.Path.{◌≡◌, refl}
use mathlib.Core.Bool.{Bool, true, false}
use mathlib.Core.Option.{Option, none, some}

pub data Fault : Type 0 where
  check_failed log_fatal out_of_range null_pointer invalid_argument bad_alloc undefined : Fault

pub data Outcome {ℓ} (A : Type ℓ) : Type ℓ where
  ok : A → Outcome A
  fault : Fault → Outcome A

infixl 5 ◌>>=◌ ◌>>◌
-- A fault ends the handler.
abbrev pub ◌>>=◌ {ℓ μ} : {X : Type ℓ} {Y : Type μ} → Outcome X → (X → Outcome Y) → Outcome Y
fault stop >>= next = fault stop
ok x >>= next = next x

abbrev pub ◌>>◌ {μ} : {Y : Type μ} → Outcome (Unit {0}) → Outcome Y → Outcome Y
first >> second = first >>= λ done. second

-- CHECK(b).
abbrev pub check : Bool → Outcome (Unit {0})
check true = ok tt
check false = fault check_failed

-- `if (!b) throw`.
abbrev pub require : Bool → Fault → Outcome (Unit {0})
require true e = ok tt
require false e = fault e

-- A lookup that the code takes for granted, or the fault of its failure.
abbrev pub or_fault {ℓ} : {A : Type ℓ} → Option A → Fault → Outcome A
or_fault none e = fault e
or_fault (some a) e = ok a

-- Two steps that return have both returned.
pub >>=-eq-ok {ℓ μ} :
    {X : Type ℓ} {Y : Type μ} (first : Outcome X) (next : X → Outcome Y) {y : Y}
    → (first >>= next) ≡ ok y
    → (x : X) × (first ≡ ok x) × (next x ≡ ok y)
>>=-eq-ok (fault stop) next returned = cc
>>=-eq-ok (ok x) next returned = (x, refl, returned)
