-- ===== src/Runtime/Vm/Operators/Refinement.antt =====
-- The operators of the interpreter on its stack, as functions of the list of operands.
use lox_vm.Prelude.{
  ℕ, zero, suc, ◌-◌, ◌%◌, ◌^◌, ◌≤◌, ◌<◌, ◌≡◌, refl, ap, ◌∙◌, Bool, true, false, not, List, [], ◌∷◌,
  get_or, length, arith, ltb, ◌==◌, if◌then◌else◌,
}
use lox_vm.Shared.Values.{as_number, is_number, is_bool, as_bool, to_lox_value_bool, nil_value}
use lox_vm.Shared.Bytecode.{
  Bytecode, op_nil, op_true, op_false, op_pop, op_equal, op_greater, op_less, op_negate, op_sub,
  op_mul, op_div, op_not, op_const_1, op_const_2, op_binary_op_and, op_binary_op_or, op_left_shift,
  op_right_shift, op_modulo,
}
use lox_vm.Runtime.Vm.Outcome.{
  Panic, Outcome, ok, panic, fault, unfinished, ◌>>=◌, not_a_number, not_a_boolean,
}
use lox_vm.Runtime.Vm.Machine.{VmThread, Services}
use lox_vm.Runtime.Vm.Stack.{
  push_stack_vm, pop_stack_vm, pop_at, pop_and_check_number, check_boolean,
}
use lox_vm.Runtime.Vm.Stack.Operands.{
  below_top, operands, with_stack, push_stack_vm-eq, operands-push, get_elem?-get_or,
}
use lox_vm.Runtime.Vm.Operators.{
  word_op, binary_op, compare_op, comparation_op, negate_vm, not_vm, values_equal, equal_vm,
}
use lox_vm.Runtime.Vm.Operators.Arithmetic.{
  word_arithmetic, word_op_sub, word_op_mul, word_op_div, word_op_modulo, word_op_left,
  word_op_right,
}
use lox_vm.Runtime.Vm.Step.{execute}

-- The specification: what an operator does to a list of operands.
abbrev pub take_operand {ℓ} : {A : Type ℓ} → List ℕ → (ℕ → List ℕ → Outcome A) → Outcome A
take_operand [] k = fault
take_operand (v ∷ s) k = k v s

abbrev pub take_number {ℓ} : {A : Type ℓ} → List ℕ → (ℕ → List ℕ → Outcome A) → Outcome A
take_number s k =
    take_operand s (λ v s. if is_number v then k (as_number v) s else panic not_a_number)

abbrev pub two_numbers : (ℕ → ℕ → Outcome ℕ) → List ℕ → Outcome (List ℕ)
two_numbers f s = take_number s (λ b s. take_number s (λ a s. f a b >>= λ v. ok (v ∷ s)))

abbrev pub on_operands : Bytecode → List ℕ → Outcome (List ℕ)
on_operands op_nil s = ok (nil_value ∷ s)
on_operands op_true s = ok (to_lox_value_bool true ∷ s)
on_operands op_false s = ok (to_lox_value_bool false ∷ s)
on_operands op_const_1 s = ok (1 ∷ s)
on_operands op_const_2 s = ok (2 ∷ s)
on_operands op_pop s = take_operand s (λ v s. ok s)
on_operands op_equal s =
    take_operand s (λ b s. take_operand s (λ a s. ok (to_lox_value_bool (a == b) ∷ s)))
on_operands op_negate s = take_number s (λ v s. ok ((2 ^ 64 - v) % 2 ^ 64 ∷ s))
on_operands op_not s =
    take_operand s (λ v s.
      if is_bool v then ok (to_lox_value_bool (not (as_bool v)) ∷ s) else panic not_a_boolean)
on_operands op_greater s = two_numbers (λ a b. ok (to_lox_value_bool (ltb b a))) s
on_operands op_less s = two_numbers (λ a b. ok (to_lox_value_bool (ltb a b))) s
on_operands op s = two_numbers (word_arithmetic op) s

abbrev pub outcome_of {ℓ κ} : {A : Type ℓ} {B : Type κ} → (A → B) → Outcome A → Outcome B
outcome_of f r = r >>= λ a. ok (f a)

pop-take {ℓ} :
    {A : Type ℓ} (thread : VmThread) (k : ℕ → VmThread → Outcome A)
    (k' : ℕ → List ℕ → Outcome (List ℕ)) (f : A → List ℕ) (e : ℕ) (st : List ℕ)
    → e ≤ length st
    → ((v e : ℕ)
        → e < length st
        → outcome_of f (k v (with_stack thread e st)) ≡ k' v (below_top e st))
    → outcome_of f (pop_stack_vm (with_stack thread e st) >>= λ r. k r.0 r.1)
      ≡ take_operand (below_top e st) k'
unfolding pop_stack_vm pop_at below_top
pop-take thread k k' f zero st h same = refl
pop-take thread k k' f (suc e) st h same =
    rw (get_elem?-get_or st e (omega arith)) (same (get_or st e 0) e (omega arith))

push-operands :
    (thread : VmThread) (v e : ℕ) (st : List ℕ)
    → e < length st
    → outcome_of operands (push_stack_vm v (with_stack thread e st)) ≡ ok (v ∷ below_top e st)
push-operands thread v e st h =
    rw (push_stack_vm-eq v (with_stack thread e st) h) (ap ok (operands-push v e st h))

checked {ℓ κ} :
    {A : Type ℓ} {B : Type κ} (c : Bool) (x : A) (p : Panic) (k : A → Outcome B) (f : B → List ℕ)
    (y : Outcome (List ℕ))
    → outcome_of f (k x) ≡ y
    → outcome_of f ((if c then ok x else panic p) >>= k) ≡ (if c then y else panic p)
checked true x p k f y h = h
checked false x p k f y h = refl

number-take {ℓ} :
    {A : Type ℓ} (thread : VmThread) (k : ℕ → VmThread → Outcome A)
    (k' : ℕ → List ℕ → Outcome (List ℕ)) (f : A → List ℕ) (e : ℕ) (st : List ℕ)
    → e ≤ length st
    → ((v e : ℕ)
        → e < length st
        → outcome_of f (k v (with_stack thread e st)) ≡ k' v (below_top e st))
    → outcome_of f (pop_and_check_number (with_stack thread e st) >>= λ r. k r.0 r.1)
      ≡ take_number (below_top e st) k'
unfolding pop_and_check_number pop_stack_vm pop_at below_top
number-take thread k k' f zero st h same = refl
number-take thread k k' f (suc e) st h same = rw (get_elem?-get_or st e (omega arith)) (
    checked (is_number (get_or st e 0)) (as_number (get_or st e 0), with_stack thread e st)
      not_a_number (λ r. k r.0 r.1) f (k' (as_number (get_or st e 0)) (below_top e st))
      (same (as_number (get_or st e 0)) e (omega arith)))

-- Pushes after an operation that can fail.
push-result :
    (thread : VmThread) (r : Outcome ℕ) (e : ℕ) (st : List ℕ)
    → e < length st
    → outcome_of operands (r >>= λ v. push_stack_vm v (with_stack thread e st))
      ≡ (r >>= λ v. ok (v ∷ below_top e st))
push-result thread (ok v) e st h = push-operands thread v e st h
push-result thread (panic p) e st h = refl
push-result thread fault e st h = refl
push-result thread unfinished e st h = refl

binary-operands :
    (op : Bytecode) (thread : VmThread) (e : ℕ) (st : List ℕ)
    → e ≤ length st
    → outcome_of operands (binary_op op (with_stack thread e st))
      ≡ two_numbers (word_op op) (below_top e st)
unfolding binary_op
binary-operands op thread e st h =
    number-take thread _ (λ b s. take_number s (λ a s. word_op op a b >>= λ v. ok (v ∷ s))) operands
      e st h
      (λ b e₁ h₁.
        number-take thread _ (λ a s. word_op op a b >>= λ v. ok (v ∷ s)) operands e₁ st
          (omega arith) (λ a e₂ h₂. push-result thread (word_op op a b) e₂ st h₂))

comparation-operands :
    (op : Bytecode) (thread : VmThread) (e : ℕ) (st : List ℕ)
    → e ≤ length st
    → outcome_of operands (comparation_op op (with_stack thread e st))
      ≡ two_numbers (λ a b. compare_op op a b >>= λ v. ok (to_lox_value_bool v)) (below_top e st)
unfolding comparation_op
comparation-operands op thread e st h =
    number-take thread _
      (λ b s.
        take_number s
          (λ a s. compare_op op a b >>= (λ v. ok (to_lox_value_bool v)) >>= λ v. ok (v ∷ s)))
      operands e st h
      (λ b e₁ h₁.
        number-take thread _
          (λ a s. compare_op op a b >>= (λ v. ok (to_lox_value_bool v)) >>= λ v. ok (v ∷ s))
          operands e₁ st (omega arith) (λ a e₂ h₂. push_test (compare_op op a b) e₂ h₂))
  where
    push_test :
        (r : Outcome Bool) (e : ℕ)
        → e < length st
        → outcome_of operands
            (r >>= λ v. push_stack_vm (to_lox_value_bool v) (with_stack thread e st))
          ≡ (r >>= (λ v. ok (to_lox_value_bool v)) >>= λ v. ok (v ∷ below_top e st))
    push_test (ok v) e h = push-operands thread (to_lox_value_bool v) e st h
    push_test (panic p) e h = refl
    push_test fault e h = refl
    push_test unfinished e h = refl

negate-operands :
    (thread : VmThread) (e : ℕ) (st : List ℕ)
    → e ≤ length st
    → outcome_of operands (negate_vm (with_stack thread e st))
      ≡ on_operands op_negate (below_top e st)
unfolding negate_vm
negate-operands thread e st h =
    number-take thread _ (λ v s. ok ((2 ^ 64 - v) % 2 ^ 64 ∷ s)) operands e st h
      (λ v e₁ h₁. push-operands thread ((2 ^ 64 - v) % 2 ^ 64) e₁ st h₁)

equal-operands :
    (thread : VmThread) (e : ℕ) (st : List ℕ)
    → e ≤ length st
    → outcome_of operands (equal_vm (with_stack thread e st))
      ≡ on_operands op_equal (below_top e st)
unfolding equal_vm values_equal
equal-operands thread e st h =
    pop-take thread _ (λ b s. take_operand s (λ a s. ok (to_lox_value_bool (a == b) ∷ s))) operands
      e st h
      (λ b e₁ h₁.
        pop-take thread _ (λ a s. ok (to_lox_value_bool (a == b) ∷ s)) operands e₁ st (omega arith)
          (λ a e₂ h₂. push-operands thread (to_lox_value_bool (a == b)) e₂ st h₂))

not-operands :
    (thread : VmThread) (e : ℕ) (st : List ℕ)
    → e ≤ length st
    → outcome_of operands (not_vm (with_stack thread e st)) ≡ on_operands op_not (below_top e st)
unfolding not_vm check_boolean pop_stack_vm pop_at below_top
not-operands thread zero st h = refl
not-operands thread (suc e) st h = rw (get_elem?-get_or st e (omega arith)) (
    checked (is_bool (get_or st e 0)) (as_bool (get_or st e 0), with_stack thread e st)
      not_a_boolean (λ r. push_stack_vm (to_lox_value_bool (not r.0)) r.1) operands
      (ok (to_lox_value_bool (not (as_bool (get_or st e 0))) ∷ below_top e st))
      (push-operands thread (to_lox_value_bool (not (as_bool (get_or st e 0)))) e st (omega arith)))

pop-operands :
    (thread : VmThread) (e : ℕ) (st : List ℕ)
    → e ≤ length st
    → outcome_of operands (pop_stack_vm (with_stack thread e st) >>= λ r. ok r.1)
      ≡ on_operands op_pop (below_top e st)
pop-operands thread e st h =
    pop-take thread (λ v t. ok t) (λ v s. ok s) operands e st h (λ v e₁ h₁. refl)

-- The instructions that only work on the stack.
pub data Operator : Type 0 where
  nil_op true_op false_op one_op two_op pop_op equal_op negate_op not_op greater_op less_op :
      Operator
  sub_op mul_op div_op modulo_op and_op or_op left_op right_op : Operator

abbrev pub bytecode_of : Operator → Bytecode
bytecode_of nil_op = op_nil
bytecode_of true_op = op_true
bytecode_of false_op = op_false
bytecode_of one_op = op_const_1
bytecode_of two_op = op_const_2
bytecode_of pop_op = op_pop
bytecode_of equal_op = op_equal
bytecode_of negate_op = op_negate
bytecode_of not_op = op_not
bytecode_of greater_op = op_greater
bytecode_of less_op = op_less
bytecode_of sub_op = op_sub
bytecode_of mul_op = op_mul
bytecode_of div_op = op_div
bytecode_of modulo_op = op_modulo
bytecode_of and_op = op_binary_op_and
bytecode_of or_op = op_binary_op_or
bytecode_of left_op = op_left_shift
bytecode_of right_op = op_right_shift

-- A binary operator whose results are known does on the operands what they say.
arithmetic-operands :
    (op : Bytecode) (thread : VmThread)
    → ((a b : ℕ) → word_op op a b ≡ word_arithmetic op a b)
    → thread.esp < length thread.stack
    → outcome_of operands (binary_op op thread) ≡ two_numbers (word_arithmetic op) (operands thread)
arithmetic-operands op t same h =
    binary-operands op t t.esp t.stack (omega arith)
    ∙ (λ i. two_numbers (λ a b. same a b i) (operands t))

-- On a stack that has room for one more value, every instruction that only works on the stack, the sum
-- aside, does to the operands what its specification does to the list of them: the result in words of 64
-- bits, the panic on an operand of the wrong class and the fault on a missing operand, a division by zero
-- and a shift by 64 or more.
pub execute-on_operands :
    (services : Services) (run : VmThread → Outcome VmThread) (o : Operator) (thread : VmThread)
    → thread.esp < length thread.stack
    → outcome_of operands (execute services run (bytecode_of o) thread)
      ≡ on_operands (bytecode_of o) (operands thread)
unfolding execute compare_op word_op
execute-on_operands services run nil_op t h = push-operands t nil_value t.esp t.stack h
execute-on_operands services run true_op t h =
    push-operands t (to_lox_value_bool true) t.esp t.stack h
execute-on_operands services run false_op t h =
    push-operands t (to_lox_value_bool false) t.esp t.stack h
execute-on_operands services run one_op t h = push-operands t 1 t.esp t.stack h
execute-on_operands services run two_op t h = push-operands t 2 t.esp t.stack h
execute-on_operands services run pop_op t h = pop-operands t t.esp t.stack (omega arith)
execute-on_operands services run equal_op t h = equal-operands t t.esp t.stack (omega arith)
execute-on_operands services run negate_op t h = negate-operands t t.esp t.stack (omega arith)
execute-on_operands services run not_op t h = not-operands t t.esp t.stack (omega arith)
execute-on_operands services run greater_op t h =
    comparation-operands op_greater t t.esp t.stack (omega arith)
execute-on_operands services run less_op t h =
    comparation-operands op_less t t.esp t.stack (omega arith)
execute-on_operands services run sub_op t h = arithmetic-operands op_sub t word_op_sub h
execute-on_operands services run mul_op t h = arithmetic-operands op_mul t word_op_mul h
execute-on_operands services run div_op t h = arithmetic-operands op_div t word_op_div h
execute-on_operands services run modulo_op t h = arithmetic-operands op_modulo t word_op_modulo h
execute-on_operands services run and_op t h = arithmetic-operands op_binary_op_and t (λ a b. refl) h
execute-on_operands services run or_op t h = arithmetic-operands op_binary_op_or t (λ a b. refl) h
execute-on_operands services run left_op t h = arithmetic-operands op_left_shift t word_op_left h
execute-on_operands services run right_op t h = arithmetic-operands op_right_shift t word_op_right h
