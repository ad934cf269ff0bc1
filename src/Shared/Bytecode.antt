-- ===== src/Shared/Bytecode.antt =====
-- src/shared/bytecode/bytecode.h and bytecode.c: the instructions of the virtual machine, their table and
-- the predicates on them. An instruction is its number; outside of the enumeration there is no entry.
pub mod Instructions
pub mod Codes
unfoldable pub use Instructions.*
use lox_vm.Prelude.{
  ℕ, zero, suc, Option, none, some, Bool, true, false, List, [], ◌∷◌, ◌≡◌, refl, ◌≤◌, arith,
}

pub record BytecodeInstructionData : Type 0 where
  pub size : ℕ
  pub n_pops : ℕ
  pub n_push : ℕ
  pub constant : Bool

abbrev pub n_variable_instruction_n_pops : ℕ
n_variable_instruction_n_pops = 0xFFFF

unfoldable entry : ℕ → ℕ → ℕ → Bool → BytecodeInstructionData
entry size n_pops n_push constant = record {
  size = size;
  n_pops = n_pops;
  n_push = n_push;
  constant = constant;
}

unfoldable pub bytecode_instructions_data : Bytecode → BytecodeInstructionData
unfolding entry op_length
bytecode_instructions_data op_constant = entry (op_length op_constant) 0 1 true
bytecode_instructions_data op_nil = entry (op_length op_nil) 0 1 true
bytecode_instructions_data op_true = entry (op_length op_true) 0 1 true
bytecode_instructions_data op_false = entry (op_length op_false) 0 1 true
bytecode_instructions_data op_pop = entry (op_length op_pop) 1 0 false
bytecode_instructions_data op_equal = entry (op_length op_equal) 1 1 false
bytecode_instructions_data op_greater = entry (op_length op_greater) 2 1 false
bytecode_instructions_data op_less = entry (op_length op_less) 2 1 false
bytecode_instructions_data op_return = entry (op_length op_return) 1 1 false
bytecode_instructions_data op_negate = entry (op_length op_negate) 1 1 false
bytecode_instructions_data op_print = entry (op_length op_print) 2 1 false
bytecode_instructions_data op_eof = entry (op_length op_eof) 0 0 false
bytecode_instructions_data op_add = entry (op_length op_add) 2 1 false
bytecode_instructions_data op_sub = entry (op_length op_sub) 2 1 false
bytecode_instructions_data op_define_global = entry (op_length op_define_global) 1 0 false
bytecode_instructions_data op_get_global = entry (op_length op_get_global) 0 1 false
bytecode_instructions_data op_set_global = entry (op_length op_set_global) 0 0 false
bytecode_instructions_data op_get_local = entry (op_length op_get_local) 0 1 false
bytecode_instructions_data op_set_local = entry (op_length op_set_local) 0 0 false
bytecode_instructions_data op_mul = entry (op_length op_mul) 2 1 false
bytecode_instructions_data op_div = entry (op_length op_div) 2 1 false
bytecode_instructions_data op_not = entry (op_length op_not) 1 1 false
bytecode_instructions_data op_jump_if_false = entry (op_length op_jump_if_false) 0 0 false
bytecode_instructions_data op_jump = entry (op_length op_jump) 0 0 false
bytecode_instructions_data op_loop = entry (op_length op_loop) 0 0 false
bytecode_instructions_data op_call = entry (op_length op_call) n_variable_instruction_n_pops 1 false
bytecode_instructions_data op_initialize_struct =
    entry (op_length op_initialize_struct) n_variable_instruction_n_pops 1 false
bytecode_instructions_data op_get_struct_field = entry (op_length op_get_struct_field) 1 1 false
bytecode_instructions_data op_set_struct_field = entry (op_length op_set_struct_field) 2 0 false
bytecode_instructions_data op_enter_package = entry (op_length op_enter_package) 1 0 false
bytecode_instructions_data op_exit_package = entry (op_length op_exit_package) 0 0 false
bytecode_instructions_data op_enter_monitor = entry (op_length op_enter_monitor) 0 0 false
bytecode_instructions_data op_exit_monitor = entry (op_length op_exit_monitor) 0 0 false
bytecode_instructions_data op_initialize_array =
    entry (op_length op_initialize_array) n_variable_instruction_n_pops 1 false
bytecode_instructions_data op_get_array_element = entry (op_length op_get_array_element) 1 1 false
bytecode_instructions_data op_set_array_element = entry (op_length op_set_array_element) 2 0 false
bytecode_instructions_data op_fast_const_8 = entry (op_length op_fast_const_8) 0 1 true
bytecode_instructions_data op_fast_const_16 = entry (op_length op_fast_const_16) 0 1 true
bytecode_instructions_data op_const_1 = entry (op_length op_const_1) 0 1 true
bytecode_instructions_data op_const_2 = entry (op_length op_const_2) 0 1 true
bytecode_instructions_data op_no_op = entry (op_length op_no_op) 0 0 false
bytecode_instructions_data op_package_const = entry (op_length op_package_const) 0 1 false
bytecode_instructions_data op_enter_monitor_explicit =
    entry (op_length op_enter_monitor_explicit) 0 0 false
bytecode_instructions_data op_exit_monitor_explicit =
    entry (op_length op_exit_monitor_explicit) 0 0 false
bytecode_instructions_data op_binary_op_and = entry (op_length op_binary_op_and) 2 1 false
bytecode_instructions_data op_binary_op_or = entry (op_length op_binary_op_or) 2 1 false
bytecode_instructions_data op_left_shift = entry (op_length op_left_shift) 2 1 false
bytecode_instructions_data op_right_shift = entry (op_length op_right_shift) 2 1 false
bytecode_instructions_data op_modulo = entry (op_length op_modulo) 2 1 false
bytecode_instructions_data op_get_array_length = entry (op_length op_get_array_length) 1 1 false

unfoldable pub is_commutative_associative_bytecode_instruction : Bytecode → Bool
is_commutative_associative_bytecode_instruction op_add = true
is_commutative_associative_bytecode_instruction op_mul = true
is_commutative_associative_bytecode_instruction op_equal = true
is_commutative_associative_bytecode_instruction op_binary_op_and = true
is_commutative_associative_bytecode_instruction op_binary_op_or = true
is_commutative_associative_bytecode_instruction _ = false

unfoldable pub is_jump_bytecode_instruction : Bytecode → Bool
is_jump_bytecode_instruction op_jump_if_false = true
is_jump_bytecode_instruction op_jump = true
is_jump_bytecode_instruction op_loop = true
is_jump_bytecode_instruction _ = false

unfoldable pub is_fwd_jump_bytecode_instruction : Bytecode → Bool
is_fwd_jump_bytecode_instruction op_jump_if_false = true
is_fwd_jump_bytecode_instruction op_jump = true
is_fwd_jump_bytecode_instruction _ = false

unfoldable pub is_bwd_jump_bytecode_instruction : Bytecode → Bool
is_bwd_jump_bytecode_instruction op_loop = true
is_bwd_jump_bytecode_instruction _ = false

unfoldable pub is_comparation_bytecode_instruction : Bytecode → Bool
is_comparation_bytecode_instruction op_equal = true
is_comparation_bytecode_instruction op_greater = true
is_comparation_bytecode_instruction op_less = true
is_comparation_bytecode_instruction _ = false

unfoldable pub get_size_bytecode_instruction : Bytecode → ℕ
unfolding bytecode_instructions_data
get_size_bytecode_instruction instruction = (bytecode_instructions_data instruction).size

unfoldable pub get_n_pop_bytecode_instruction : Bytecode → ℕ
unfolding bytecode_instructions_data
get_n_pop_bytecode_instruction instruction = (bytecode_instructions_data instruction).n_pops

unfoldable pub get_n_push_bytecode_instruction : Bytecode → ℕ
unfolding bytecode_instructions_data
get_n_push_bytecode_instruction instruction = (bytecode_instructions_data instruction).n_push

unfoldable pub is_constant_bytecode_instruction : Bytecode → Bool
unfolding bytecode_instructions_data
is_constant_bytecode_instruction instruction = (bytecode_instructions_data instruction).constant
