-- ===== src/Runtime/Vm/Step.antt =====
-- The loop of src/runtime/vm.c. The safe points, at which the collector may move objects, and the profiles
-- have no effect on this state; a monitor is entered and left at once, since no other thread holds it.
pub mod Advance
pub mod Length
pub mod Framed
pub mod FrameBound
use lox_vm.Prelude.{ℕ, zero, suc, ◌+◌, ◌∷◌, List, Option, none, some}
use lox_vm.Shared.Values.{nil_value, to_lox_value_bool}
use lox_vm.Prelude.{true, false}
use lox_vm.Shared.Bytecode.{
  Bytecode, to_bytecode, op_constant, op_nil, op_true, op_false, op_pop, op_equal, op_greater,
  op_less, op_return, op_negate, op_print, op_eof, op_add, op_sub, op_define_global, op_get_global,
  op_set_global, op_get_local, op_set_local, op_mul, op_div, op_not, op_jump_if_false, op_jump,
  op_loop, op_call, op_initialize_struct, op_get_struct_field, op_set_struct_field,
  op_enter_package, op_exit_package, op_enter_monitor, op_exit_monitor, op_initialize_array,
  op_get_array_element, op_set_array_element, op_fast_const_8, op_fast_const_16, op_const_1,
  op_const_2, op_no_op, op_package_const, op_enter_monitor_explicit, op_exit_monitor_explicit,
  op_binary_op_and, op_binary_op_or, op_left_shift, op_right_shift, op_modulo, op_get_array_length,
}
use lox_vm.Runtime.Vm.Outcome.{Outcome, ok, panic, fault, unfinished, ◌>>=◌, unhandled_bytecode}
use lox_vm.Runtime.Vm.Machine.{VmThread, Services}
use lox_vm.Runtime.Vm.Stack.{push_stack_vm, pop_stack_vm}
use lox_vm.Runtime.Vm.Frames.{
  read_bytecode, read_u16, read_constant, jump, jump_if_false, loop, return_function,
}
use lox_vm.Runtime.Vm.Operators.{
  binary_op, comparation_op, negate_vm, not_vm, equal_vm, addition_vm,
}
use lox_vm.Runtime.Vm.Objects.{
  define_global, get_global, set_global, get_local, set_local, initialize_array, initialize_struct,
  get_array_length, get_array_element, set_array_element, get_struct_field, set_struct_field,
}
use lox_vm.Runtime.Vm.Calls.{call_vm}
use lox_vm.Runtime.Vm.Packages.{enter_package, exit_package}

unfoldable pub print : VmThread → Outcome VmThread
unfolding pop_stack_vm
print thread = do
  (value, thread) ← pop_stack_vm thread
  ok (record thread { log = value ∷ thread.log })

abbrev pub push_read : (VmThread → Outcome (ℕ × VmThread)) → VmThread → Outcome VmThread
push_read read thread = do (value, thread) ← read thread; push_stack_vm value thread

-- The operand is read and the monitor of the function entered or left.
unfoldable pub skip_operand : ℕ → VmThread → Outcome VmThread
unfolding read_bytecode
skip_operand zero thread = ok thread
skip_operand (suc n) thread = do (byte, thread) ← read_bytecode thread; skip_operand n thread

module _ (services : Services) (run : VmThread → Outcome VmThread) where
  -- The cases of the switch of `run` but for `OP_EOF`.
  unfoldable pub execute : Bytecode → VmThread → Outcome VmThread
  unfolding push_stack_vm read_bytecode read_u16 read_constant to_lox_value_bool
  execute op_return = return_function
  execute op_constant = push_read read_constant
  execute op_negate = negate_vm
  execute op_add = addition_vm services
  execute op_sub = binary_op op_sub
  execute op_mul = binary_op op_mul
  execute op_div = binary_op op_div
  execute op_modulo = binary_op op_modulo
  execute op_binary_op_and = binary_op op_binary_op_and
  execute op_binary_op_or = binary_op op_binary_op_or
  execute op_left_shift = binary_op op_left_shift
  execute op_right_shift = binary_op op_right_shift
  execute op_greater = comparation_op op_greater
  execute op_less = comparation_op op_less
  execute op_false = push_stack_vm (to_lox_value_bool false)
  execute op_true = push_stack_vm (to_lox_value_bool true)
  execute op_nil = push_stack_vm nil_value
  execute op_not = not_vm
  execute op_equal = equal_vm
  execute op_print = print
  execute op_pop = λ thread. (do (value, thread) ← pop_stack_vm thread; ok thread)
  execute op_define_global = define_global
  execute op_get_global = get_global
  execute op_set_global = set_global
  execute op_get_local = get_local
  execute op_jump_if_false = jump_if_false
  execute op_jump = jump
  execute op_set_local = set_local
  execute op_loop = loop
  execute op_call = call_vm services
  execute op_initialize_struct = initialize_struct services
  execute op_get_struct_field = get_struct_field
  execute op_set_struct_field = set_struct_field
  execute op_enter_package = enter_package services run
  execute op_exit_package = exit_package
  execute op_enter_monitor = skip_operand 1
  execute op_enter_monitor_explicit = skip_operand 8
  execute op_exit_monitor_explicit = skip_operand 8
  execute op_exit_monitor = skip_operand 1
  execute op_initialize_array = initialize_array services
  execute op_get_array_element = get_array_element
  execute op_set_array_element = set_array_element
  execute op_fast_const_8 = push_read read_bytecode
  execute op_fast_const_16 = push_read read_u16
  execute op_const_1 = push_stack_vm 1
  execute op_const_2 = push_stack_vm 2
  execute op_package_const = push_read read_constant
  execute op_get_array_length = get_array_length
  execute op_eof = ok
  execute op_no_op = ok

-- The loop ends at `OP_EOF`, and at a number that is no instruction with an error. Each round takes one
-- of the fuel, and so does the loop that a package is initialised by.
abbrev pub dispatch :
    (Bytecode → VmThread → Outcome VmThread)
    → (VmThread → Outcome VmThread)
    → ℕ
    → VmThread
    → Outcome VmThread
dispatch handle next byte thread = elim (to_bytecode byte) [
  | none ↦ panic unhandled_bytecode
  | some op_eof ↦ ok thread
  | some op ↦ handle op thread >>= next
]

unfoldable pub run_vm : Services → ℕ → VmThread → Outcome VmThread
unfolding execute read_bytecode
run_vm services zero thread = unfinished
run_vm services (suc fuel) thread = do
  (byte, thread) ← read_bytecode thread
  dispatch (execute services (run_vm services fuel)) (run_vm services fuel) byte thread
