-- ===== src/Shared/Bytecode/Codes.antt =====
-- The numbers and the sizes in the table of src/shared/bytecode/bytecode.c.
use lox_vm.Prelude.{some, ◌≡◌, refl, ◌≤◌, arith}
use lox_vm.Shared.Bytecode.{
  Bytecode, opcode, to_bytecode, get_size_bytecode_instruction, bytecode_instructions_data,
  op_length, op_constant, op_nil, op_true, op_false, op_pop, op_equal, op_greater, op_less,
  op_return, op_negate, op_print, op_eof, op_add, op_sub, op_define_global, op_get_global,
  op_set_global, op_get_local, op_set_local, op_mul, op_div, op_not, op_jump_if_false, op_jump,
  op_loop, op_call, op_initialize_struct, op_get_struct_field, op_set_struct_field,
  op_enter_package, op_exit_package, op_enter_monitor, op_exit_monitor, op_initialize_array,
  op_get_array_element, op_set_array_element, op_fast_const_8, op_fast_const_16, op_const_1,
  op_const_2, op_no_op, op_package_const, op_enter_monitor_explicit, op_exit_monitor_explicit,
  op_binary_op_and, op_binary_op_or, op_left_shift, op_right_shift, op_modulo, op_get_array_length,
}

-- Every instruction is read back from its number.
pub to_bytecode-opcode : (b : Bytecode) → to_bytecode (opcode b) ≡ some b
unfolding to_bytecode opcode
to_bytecode-opcode op_constant = refl
to_bytecode-opcode op_nil = refl
to_bytecode-opcode op_true = refl
to_bytecode-opcode op_false = refl
to_bytecode-opcode op_pop = refl
to_bytecode-opcode op_equal = refl
to_bytecode-opcode op_greater = refl
to_bytecode-opcode op_less = refl
to_bytecode-opcode op_return = refl
to_bytecode-opcode op_negate = refl
to_bytecode-opcode op_print = refl
to_bytecode-opcode op_eof = refl
to_bytecode-opcode op_add = refl
to_bytecode-opcode op_sub = refl
to_bytecode-opcode op_define_global = refl
to_bytecode-opcode op_get_global = refl
to_bytecode-opcode op_set_global = refl
to_bytecode-opcode op_get_local = refl
to_bytecode-opcode op_set_local = refl
to_bytecode-opcode op_mul = refl
to_bytecode-opcode op_div = refl
to_bytecode-opcode op_not = refl
to_bytecode-opcode op_jump_if_false = refl
to_bytecode-opcode op_jump = refl
to_bytecode-opcode op_loop = refl
to_bytecode-opcode op_call = refl
to_bytecode-opcode op_initialize_struct = refl
to_bytecode-opcode op_get_struct_field = refl
to_bytecode-opcode op_set_struct_field = refl
to_bytecode-opcode op_enter_package = refl
to_bytecode-opcode op_exit_package = refl
to_bytecode-opcode op_enter_monitor = refl
to_bytecode-opcode op_exit_monitor = refl
to_bytecode-opcode op_initialize_array = refl
to_bytecode-opcode op_get_array_element = refl
to_bytecode-opcode op_set_array_element = refl
to_bytecode-opcode op_fast_const_8 = refl
to_bytecode-opcode op_fast_const_16 = refl
to_bytecode-opcode op_const_1 = refl
to_bytecode-opcode op_const_2 = refl
to_bytecode-opcode op_no_op = refl
to_bytecode-opcode op_package_const = refl
to_bytecode-opcode op_enter_monitor_explicit = refl
to_bytecode-opcode op_exit_monitor_explicit = refl
to_bytecode-opcode op_binary_op_and = refl
to_bytecode-opcode op_binary_op_or = refl
to_bytecode-opcode op_left_shift = refl
to_bytecode-opcode op_right_shift = refl
to_bytecode-opcode op_modulo = refl
to_bytecode-opcode op_get_array_length = refl

-- An instruction has a byte at least.
pub get_size-pos : (b : Bytecode) → 1 ≤ get_size_bytecode_instruction b
unfolding get_size_bytecode_instruction bytecode_instructions_data op_length
get_size-pos op_constant = omega arith
get_size-pos op_nil = omega arith
get_size-pos op_true = omega arith
get_size-pos op_false = omega arith
get_size-pos op_pop = omega arith
get_size-pos op_equal = omega arith
get_size-pos op_greater = omega arith
get_size-pos op_less = omega arith
get_size-pos op_return = omega arith
get_size-pos op_negate = omega arith
get_size-pos op_print = omega arith
get_size-pos op_eof = omega arith
get_size-pos op_add = omega arith
get_size-pos op_sub = omega arith
get_size-pos op_define_global = omega arith
get_size-pos op_get_global = omega arith
get_size-pos op_set_global = omega arith
get_size-pos op_get_local = omega arith
get_size-pos op_set_local = omega arith
get_size-pos op_mul = omega arith
get_size-pos op_div = omega arith
get_size-pos op_not = omega arith
get_size-pos op_jump_if_false = omega arith
get_size-pos op_jump = omega arith
get_size-pos op_loop = omega arith
get_size-pos op_call = omega arith
get_size-pos op_initialize_struct = omega arith
get_size-pos op_get_struct_field = omega arith
get_size-pos op_set_struct_field = omega arith
get_size-pos op_enter_package = omega arith
get_size-pos op_exit_package = omega arith
get_size-pos op_enter_monitor = omega arith
get_size-pos op_exit_monitor = omega arith
get_size-pos op_initialize_array = omega arith
get_size-pos op_get_array_element = omega arith
get_size-pos op_set_array_element = omega arith
get_size-pos op_fast_const_8 = omega arith
get_size-pos op_fast_const_16 = omega arith
get_size-pos op_const_1 = omega arith
get_size-pos op_const_2 = omega arith
get_size-pos op_no_op = omega arith
get_size-pos op_package_const = omega arith
get_size-pos op_enter_monitor_explicit = omega arith
get_size-pos op_exit_monitor_explicit = omega arith
get_size-pos op_binary_op_and = omega arith
get_size-pos op_binary_op_or = omega arith
get_size-pos op_left_shift = omega arith
get_size-pos op_right_shift = omega arith
get_size-pos op_modulo = omega arith
get_size-pos op_get_array_length = omega arith
