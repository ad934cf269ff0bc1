-- ===== src/Shared/Bytecode/Instructions.antt =====
-- The enumeration of src/shared/bytecode/bytecode.h and the lengths it defines.
use lox_vm.Prelude.{ℕ, zero, suc, Option, none, some, List, [], ◌∷◌}

pub data Bytecode : Type 0 where
  op_constant op_nil op_true op_false : Bytecode
  op_pop op_equal op_greater op_less : Bytecode
  op_return op_negate op_print op_eof : Bytecode
  op_add op_sub op_define_global op_get_global : Bytecode
  op_set_global op_get_local op_set_local op_mul : Bytecode
  op_div op_not op_jump_if_false op_jump : Bytecode
  op_loop op_call op_initialize_struct op_get_struct_field : Bytecode
  op_set_struct_field op_enter_package op_exit_package op_enter_monitor : Bytecode
  op_exit_monitor op_initialize_array op_get_array_element op_set_array_element : Bytecode
  op_fast_const_8 op_fast_const_16 op_const_1 op_const_2 : Bytecode
  op_no_op op_package_const op_enter_monitor_explicit op_exit_monitor_explicit : Bytecode
  op_binary_op_and op_binary_op_or op_left_shift op_right_shift : Bytecode
  op_modulo op_get_array_length : Bytecode

-- the number of bytes of an instruction, which the header defines
unfoldable pub op_length : Bytecode → ℕ
op_length op_constant = 2
op_length op_nil = 1
op_length op_true = 1
op_length op_false = 1
op_length op_pop = 1
op_length op_equal = 1
op_length op_greater = 1
op_length op_less = 1
op_length op_return = 1
op_length op_negate = 1
op_length op_print = 1
op_length op_eof = 1
op_length op_add = 1
op_length op_sub = 1
op_length op_define_global = 2
op_length op_get_global = 2
op_length op_set_global = 2
op_length op_get_local = 2
op_length op_set_local = 2
op_length op_mul = 1
op_length op_div = 1
op_length op_not = 1
op_length op_jump_if_false = 3
op_length op_jump = 3
op_length op_loop = 3
op_length op_call = 3
op_length op_initialize_struct = 2
op_length op_get_struct_field = 2
op_length op_set_struct_field = 2
op_length op_enter_package = 1
op_length op_exit_package = 1
op_length op_enter_monitor = 2
op_length op_exit_monitor = 2
op_length op_initialize_array = 4
op_length op_get_array_element = 1
op_length op_set_array_element = 1
op_length op_fast_const_8 = 2
op_length op_fast_const_16 = 3
op_length op_const_1 = 1
op_length op_const_2 = 1
op_length op_no_op = 1
op_length op_package_const = 2
op_length op_enter_monitor_explicit = 9
op_length op_exit_monitor_explicit = 9
op_length op_binary_op_and = 1
op_length op_binary_op_or = 1
op_length op_left_shift = 1
op_length op_right_shift = 1
op_length op_modulo = 1
op_length op_get_array_length = 1

-- the number of an instruction in the enumeration
unfoldable pub opcode : Bytecode → ℕ
opcode op_constant = 0
opcode op_nil = 1
opcode op_true = 2
opcode op_false = 3
opcode op_pop = 4
opcode op_equal = 5
opcode op_greater = 6
opcode op_less = 7
opcode op_return = 8
opcode op_negate = 9
opcode op_print = 10
opcode op_eof = 11
opcode op_add = 12
opcode op_sub = 13
opcode op_define_global = 14
opcode op_get_global = 15
opcode op_set_global = 16
opcode op_get_local = 17
opcode op_set_local = 18
opcode op_mul = 19
opcode op_div = 20
opcode op_not = 21
opcode op_jump_if_false = 22
opcode op_jump = 23
opcode op_loop = 24
opcode op_call = 25
opcode op_initialize_struct = 26
opcode op_get_struct_field = 27
opcode op_set_struct_field = 28
opcode op_enter_package = 29
opcode op_exit_package = 30
opcode op_enter_monitor = 31
opcode op_exit_monitor = 32
opcode op_initialize_array = 33
opcode op_get_array_element = 34
opcode op_set_array_element = 35
opcode op_fast_const_8 = 36
opcode op_fast_const_16 = 37
opcode op_const_1 = 38
opcode op_const_2 = 39
opcode op_no_op = 40
opcode op_package_const = 41
opcode op_enter_monitor_explicit = 42
opcode op_exit_monitor_explicit = 43
opcode op_binary_op_and = 44
opcode op_binary_op_or = 45
opcode op_left_shift = 46
opcode op_right_shift = 47
opcode op_modulo = 48
opcode op_get_array_length = 49

-- the enumeration in its order
abbrev all : List Bytecode
all =
    op_constant ∷ op_nil ∷ op_true ∷ op_false ∷ op_pop ∷ op_equal ∷ op_greater ∷ op_less ∷ op_return
    ∷ op_negate ∷ op_print ∷ op_eof ∷ op_add ∷ op_sub ∷ op_define_global ∷ op_get_global
    ∷ op_set_global ∷ op_get_local ∷ op_set_local ∷ op_mul ∷ op_div ∷ op_not ∷ op_jump_if_false
    ∷ op_jump ∷ op_loop ∷ op_call ∷ op_initialize_struct ∷ op_get_struct_field ∷ op_set_struct_field
    ∷ op_enter_package ∷ op_exit_package ∷ op_enter_monitor ∷ op_exit_monitor ∷ op_initialize_array
    ∷ op_get_array_element ∷ op_set_array_element ∷ op_fast_const_8 ∷ op_fast_const_16 ∷ op_const_1
    ∷ op_const_2 ∷ op_no_op ∷ op_package_const ∷ op_enter_monitor_explicit
    ∷ op_exit_monitor_explicit ∷ op_binary_op_and ∷ op_binary_op_or ∷ op_left_shift ∷ op_right_shift
    ∷ op_modulo ∷ op_get_array_length ∷ []

abbrev from : List Bytecode → ℕ → Option Bytecode
from [] n = none
from (b ∷ bs) zero = some b
from (b ∷ bs) (suc n) = from bs n

-- The instruction of a byte.
unfoldable pub to_bytecode : ℕ → Option Bytecode
to_bytecode = from all
