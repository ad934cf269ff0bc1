-- ===== src/Jit/X64/Arithmetic.antt =====
-- The instructions of src/runtime/jit/x64/opcodes.c between two registers, and those on one.
use lox_vm.Prelude.{ℕ, ◌+◌, ◌*◌, ◌^◌, leb, if◌then◌else◌, bit_or}
use lox_vm.Jit.X64.Operands.{Operand, as_reg, r8, to_32_bit_register}
use lox_vm.Jit.X64.Emit.{
  Emit, ◌>>=◌, ◌>>◌, return, append, get_64_bit_binary_op_prefix, get_16_bit_prefix,
  register_addressing_mode, mod_reg_rm,
}

unfoldable pub emit_register_register_add : Operand → Operand → Emit ℕ
emit_register_register_add a b = do
  index ← append (get_64_bit_binary_op_prefix a b)
  append 0x01
  append (mod_reg_rm register_addressing_mode (as_reg b) (as_reg a))
  return index

unfoldable pub emit_register_register_sub : Operand → Operand → Emit ℕ
emit_register_register_sub a b = do
  index ← append (get_64_bit_binary_op_prefix a b)
  append 0x29
  append (mod_reg_rm register_addressing_mode (as_reg b) (as_reg a))
  return index

unfoldable pub emit_register_register_cmp : Operand → Operand → Emit ℕ
emit_register_register_cmp a b = do
  index ← append (get_64_bit_binary_op_prefix a b)
  append 0x39
  append (mod_reg_rm register_addressing_mode (as_reg b) (as_reg a))
  return index

unfoldable pub emit_register_register_binary_or : Operand → Operand → Emit ℕ
emit_register_register_binary_or a b = do
  index ← append (get_64_bit_binary_op_prefix a b)
  append 0x09
  append (mod_reg_rm register_addressing_mode (as_reg b) (as_reg a))
  return index

-- the prefix that `and` computes itself
abbrev pub binary_and_prefix : Operand → Operand → ℕ
binary_and_prefix a b =
    if leb r8 (as_reg a)
    then (if leb r8 (as_reg b) then 0x4d else 0x49)
    else (if leb r8 (as_reg b) then 0x4c else 0x48)

unfoldable pub emit_register_register_binary_and : Operand → Operand → Emit ℕ
emit_register_register_binary_and a b = do
  index ← append (binary_and_prefix a b)
  append 0x21
  append (mod_reg_rm register_addressing_mode (as_reg b) (as_reg a))
  return index

unfoldable pub emit_register_register_imul : Operand → Operand → Emit ℕ
emit_register_register_imul a b = do
  index ← append (get_64_bit_binary_op_prefix a b)
  append 0x0F
  append 0xAF
  append (mod_reg_rm register_addressing_mode (as_reg a) (as_reg b))
  return index

-- the prefix of an instruction on one register
abbrev pub single_prefix : Operand → ℕ
single_prefix a = if leb r8 (as_reg a) then 0x49 else 0x48

unfoldable pub emit_dec : Operand → Emit ℕ
emit_dec operand = do
  index ← append (single_prefix operand)
  append 0xFF
  append (0xc8 + to_32_bit_register (as_reg operand))
  return index

unfoldable pub emit_inc : Operand → Emit ℕ
emit_inc operand = do
  index ← append (single_prefix operand)
  append 0xFF
  append (0xc0 + to_32_bit_register (as_reg operand))
  return index

unfoldable pub emit_neg : Operand → Emit ℕ
emit_neg a = do
  offset ← append (single_prefix a)
  append 0xF7
  append (0xD8 + to_32_bit_register (as_reg a))
  return offset

unfoldable pub emit_idiv : Operand → Emit ℕ
emit_idiv divisor = do
  index ← append (single_prefix divisor)
  append 0xF7
  append (
      bit_or (bit_or register_addressing_mode (0x07 * 2 ^ 3)) (to_32_bit_register (as_reg divisor)))
  return index

unfoldable pub emit_al_movzx : Operand → Emit ℕ
emit_al_movzx a = do
  offset ← append (if leb r8 (as_reg a) then 0x4C else 0x48)
  append 0x0F
  append 0xB6
  append (mod_reg_rm register_addressing_mode (as_reg a) 0)
  return offset

unfoldable pub emit_setl_al : Emit ℕ
emit_setl_al = do index ← append get_16_bit_prefix; append 0x9C; append 0xC0; return index

unfoldable pub emit_setg_al : Emit ℕ
emit_setg_al = do index ← append get_16_bit_prefix; append 0x9F; append 0xC0; return index

unfoldable pub emit_sete_al : Emit ℕ
emit_sete_al = do index ← append get_16_bit_prefix; append 0x94; append 0xC0; return index
