-- ===== src/Runtime/Vm/Outcome.antt =====
-- What a handler of src/runtime/vm.c gives: a result, a call of runtime_panic, which ends the program, or
-- a fault, which is behaviour that C leaves undefined. A loop that is given too few rounds is unfinished.
use lox_vm.Prelude.{Option, none, some}

pub data Panic : Type 0 where
  not_a_number not_a_boolean unexpected_object cannot_call parallel_native : Panic
  wrong_arguments stack_overflow too_many_children : Panic
  undeclared_variable undefined_field index_out_of_bounds : Panic
  cyclic_package unexpected_package_state unhandled_bytecode package_error : Panic

pub data Outcome {ℓ} (A : Type ℓ) : Type ℓ where
  ok : A → Outcome A
  panic : Panic → Outcome A
  fault : Outcome A
  unfinished : Outcome A

infixl 1 ◌>>=◌
abbrev pub ◌>>=◌ {ℓ κ} : {A : Type ℓ} {B : Type κ} → Outcome A → (A → Outcome B) → Outcome B
ok a >>= f = f a
panic p >>= f = panic p
fault >>= f = fault
unfinished >>= f = unfinished

-- An access outside of an object is a fault.
abbrev pub access {ℓ} : {A : Type ℓ} → Option A → Outcome A
access none = fault
access (some a) = ok a

-- `P` holds of a result, if there is one.
pub data Holds {ℓ} {A : Type ℓ} (P : A → Type 0) : Outcome A → Type ℓ where
  returns : {a : A} → P a → Holds P (ok a)
  panics : {p : Panic} → Holds P (panic p)
  faults : Holds P fault
  goes_on : Holds P unfinished

pub Holds-ok {ℓ} : {A : Type ℓ} {P : A → Type 0} {a : A} → Holds P (ok a) → P a
Holds-ok (returns h) = h

module _ {ℓ κ} {A : Type ℓ} {B : Type κ} where
  pub Holds-bind :
      {P : A → Type 0} {Q : B → Type 0} {r : Outcome A} {f : A → Outcome B}
      → Holds P r
      → ((a : A) → P a → Holds Q (f a))
      → Holds Q (r >>= f)
  Holds-bind (returns h) k = k _ h
  Holds-bind panics k = panics
  Holds-bind faults k = faults
  Holds-bind goes_on k = goes_on
