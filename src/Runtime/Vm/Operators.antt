-- ===== src/Runtime/Vm/Operators.antt =====
-- The operators of src/runtime/vm.c and src/runtime/addition.c.
pub mod Arithmetic
pub mod Refinement
pub mod Numbers
use lox_vm.Prelude.{
  ℕ, zero, suc, ◌+◌, ◌-◌, ◌*◌, ◌/◌, ◌%◌, ◌^◌, Bool, not, ◌&&◌, bit_and, bit_or, List, [], ◌∷◌, ltb,
  ◌==◌, if◌then◌else◌,
}
use lox_vm.Shared.Values.{is_number, to_lox_value_bool}
use lox_vm.Shared.Bytecode.{
  Bytecode, op_add, op_sub, op_mul, op_div, op_modulo, op_binary_op_and, op_binary_op_or,
  op_left_shift, op_right_shift, op_greater, op_less,
}
use lox_vm.Runtime.Vm.Outcome.{Outcome, ok, panic, fault, ◌>>=◌}
use lox_vm.Runtime.Vm.Machine.{VmThread, Services}
use lox_vm.Runtime.Vm.Stack.{push_stack_vm, pop_stack_vm, pop_and_check_number, check_boolean}

-- The operators of `BINARY_OP` on words of 64 bits. A division by zero and a shift by the width of the
-- word or more are faults.
unfoldable pub word_op : Bytecode → ℕ → ℕ → Outcome ℕ
word_op op_sub a b = ok ((a + 2 ^ 64 - b) % 2 ^ 64)
word_op op_mul a b = ok (a * b % 2 ^ 64)
word_op op_div a b = if b == 0 then fault else ok (a / b)
word_op op_modulo a b = if b == 0 then fault else ok (a % b)
word_op op_binary_op_and a b = ok (bit_and a b)
word_op op_binary_op_or a b = ok (bit_or a b)
word_op op_left_shift a b = if ltb b 64 then ok (a * 2 ^ b % 2 ^ 64) else fault
word_op op_right_shift a b = if ltb b 64 then ok (a / 2 ^ b) else fault
word_op _ a b = fault

unfoldable pub binary_op : Bytecode → VmThread → Outcome VmThread
unfolding pop_and_check_number word_op push_stack_vm
binary_op op thread = do
  (b, thread) ← pop_and_check_number thread
  (a, thread) ← pop_and_check_number thread
  value ← word_op op a b
  push_stack_vm value thread

-- The operators of `COMPARATION_OP`
unfoldable pub compare_op : Bytecode → ℕ → ℕ → Outcome Bool
compare_op op_greater a b = ok (ltb b a)
compare_op op_less a b = ok (ltb a b)
compare_op _ a b = fault

unfoldable pub comparation_op : Bytecode → VmThread → Outcome VmThread
unfolding pop_and_check_number compare_op push_stack_vm to_lox_value_bool
comparation_op op thread = do
  (b, thread) ← pop_and_check_number thread
  (a, thread) ← pop_and_check_number thread
  value ← compare_op op a b
  push_stack_vm (to_lox_value_bool value) thread

-- `-` on a word of 64 bits
unfoldable pub negate_vm : VmThread → Outcome VmThread
unfolding pop_and_check_number push_stack_vm
negate_vm thread = do
  (value, thread) ← pop_and_check_number thread
  push_stack_vm ((2 ^ 64 - value) % 2 ^ 64) thread

unfoldable pub not_vm : VmThread → Outcome VmThread
unfolding check_boolean push_stack_vm to_lox_value_bool
not_vm thread = do
  (value, thread) ← check_boolean thread
  push_stack_vm (to_lox_value_bool (not value)) thread

unfoldable pub values_equal : ℕ → ℕ → ℕ
unfolding to_lox_value_bool
values_equal a b = to_lox_value_bool (a == b)

unfoldable pub equal_vm : VmThread → Outcome VmThread
unfolding pop_stack_vm values_equal push_stack_vm
equal_vm thread = do
  (b, thread) ← pop_stack_vm thread
  (a, thread) ← pop_stack_vm thread
  push_stack_vm (values_equal a b) thread

module _ (services : Services) where
  -- Two numbers are added without a check of the digits they lose; all else is joined as texts.
  unfoldable pub addition_lox : ℕ → ℕ → VmThread → Outcome (ℕ × VmThread)
  unfolding is_number
  addition_lox a b thread =
      if is_number a && is_number b
      then ok ((a + b) % 2 ^ 64, thread)
      else services.concatenate a b thread

  -- C leaves the order of the two calls of pop open. Here the last argument is popped first, so that the
  -- texts are joined in their order.
  unfoldable pub addition_vm : VmThread → Outcome VmThread
  unfolding addition_lox pop_stack_vm push_stack_vm
  addition_vm thread = do
    (b, thread) ← pop_stack_vm thread
    (a, thread) ← pop_stack_vm thread
    (value, thread) ← addition_lox a b thread
    push_stack_vm value thread
