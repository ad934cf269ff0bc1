-- ===== src/Jit/X64/Moves.antt =====
-- The `mov` instructions of src/runtime/jit/x64/opcodes.c.
use lox_vm.Prelude.{ℕ, ◌+◌, Bool, ◌&&◌, not, leb, ltb, ◌==◌, if◌then◌else◌, bit_and}
use lox_vm.Prelude.Int.{ℤ, to_u64}
use lox_vm.Jit.X64.Operands.{
  Operand, immediate_operand, register_operand, register_disp_operand, as_reg, as_immediate, rsp,
  rbp, r8, to_32_bit_register,
}
use lox_vm.Jit.X64.Emit.{
  Emit, ◌>>=◌, ◌>>◌, return, runtime_panic, append, emit_dword_immediate_value,
  emit_qword_immediate_value, get_64_bit_binary_op_prefix, register_addressing_mode,
  byte_displacement_mode, dword_displacement_mode, zero_displacement_mode, mod_reg_rm, is_byte_size,
}

unfoldable pub emit_register_to_register_mov : Operand → Operand → Emit ℕ
emit_register_to_register_mov a b = do
  index ← append (get_64_bit_binary_op_prefix a b)
  append 0x89
  append (mod_reg_rm register_addressing_mode (as_reg b) (as_reg a))
  return index

-- the immediate has a bit in its upper half
abbrev pub is_64_bit : ℕ → Bool
is_64_bit v = not (bit_and v 0xFFFFFFFF00000000 == 0)

unfoldable pub emit_immediate_to_register_mov : Operand → Operand → Emit ℕ
emit_immediate_to_register_mov a b = do
  let v = as_immediate b
  let large = is_64_bit v
  index ← append (if leb r8 (as_reg a) then 0x49 else 0x48)
  append (if large then 0xB8 + to_32_bit_register (as_reg a) else 0xC7)
  if large
      then emit_qword_immediate_value v
      else (append (mod_reg_rm register_addressing_mode 0 (as_reg a))
          >> emit_dword_immediate_value v)
  return index

-- The byte after the ModRM byte where the base is `rsp` or `r12`.
abbrev pub append_sib : ℕ → Emit ℕ
append_sib base = if to_32_bit_register base == rsp then append 0x24 else return 0

-- the prefix of a move between the memory at `base` and `reg`
abbrev pub store_prefix : ℕ → ℕ → ℕ
store_prefix base reg =
    if ltb reg r8
    then (if ltb base r8 then 0x48 else 0x49)
    else (if ltb base r8 then 0x4c else 0x4d)

abbrev pub load_prefix : ℕ → ℕ → ℕ
load_prefix reg base =
    if leb r8 reg
    then (if leb r8 base then 0x4d else 0x4c)
    else (if leb r8 base then 0x49 else 0x48)

-- `mov [a +- 8], b`
unfoldable pub emit_register_to_disp_register_move : ℕ → ℤ → ℕ → Emit ℕ
emit_register_to_disp_register_move a_reg disp b_reg = do
  let mode = if is_byte_size disp then byte_displacement_mode else dword_displacement_mode
  index ← append (store_prefix a_reg b_reg)
  append 0x89
  append (mod_reg_rm mode b_reg a_reg)
  append_sib a_reg
  if to_32_bit_register a_reg == rbp && mode == zero_displacement_mode
      then append 0x00
      else return 0
  if mode == byte_displacement_mode
      then append (to_u64 disp)
      else (if mode == dword_displacement_mode
          then emit_dword_immediate_value (to_u64 disp)
          else return 0)
  return index

-- `mov a, [b +- 8]`
unfoldable pub emit_register_disp_to_register_mov : ℕ → ℕ → ℤ → Emit ℕ
emit_register_disp_to_register_mov a_reg b_reg disp = do
  let mode = if is_byte_size disp then byte_displacement_mode else dword_displacement_mode
  index ← append (load_prefix a_reg b_reg)
  append 0x8b
  append (mod_reg_rm mode a_reg b_reg)
  append_sib b_reg
  if is_byte_size disp then append (to_u64 disp) else emit_dword_immediate_value (to_u64 disp)
  return index

unfoldable pub emit_mov : Operand → Operand → Emit ℕ
unfolding emit_register_to_register_mov emit_immediate_to_register_mov
    emit_register_disp_to_register_mov emit_register_to_disp_register_move
emit_mov (register_operand a) (register_operand b) =
    emit_register_to_register_mov (register_operand a) (register_operand b)
emit_mov (register_operand a) (immediate_operand v) =
    emit_immediate_to_register_mov (register_operand a) (immediate_operand v)
emit_mov (register_operand a) (register_disp_operand b d) = emit_register_disp_to_register_mov a b d
emit_mov (register_disp_operand a d) (register_operand b) =
    emit_register_to_disp_register_move a d b
emit_mov _ _ = runtime_panic
