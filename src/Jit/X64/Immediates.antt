-- ===== src/Jit/X64/Immediates.antt =====
-- The instructions of src/runtime/jit/x64/opcodes.c between a register and an immediate, and the
-- functions that choose by the types of the operands.
use lox_vm.Prelude.{ℕ, ◌+◌, ◌*◌, ◌^◌, ◌&&◌, ◌||◌, not, leb, ltb, ◌==◌, if◌then◌else◌, bit_or}
use lox_vm.Jit.X64.Operands.{
  Operand, immediate_operand, register_operand, as_reg, as_immediate, rax, r9, to_32_bit_register,
}
use lox_vm.Jit.X64.Emit.{
  Emit, ◌>>=◌, ◌>>◌, return, runtime_panic, append, emit_dword_immediate_value,
  get_64_bit_binary_op_prefix, register_addressing_mode, mod_reg_rm,
}
use lox_vm.Jit.X64.Arithmetic.{
  single_prefix, emit_register_register_add, emit_register_register_sub, emit_register_register_cmp,
  emit_register_register_binary_or, emit_register_register_binary_and, emit_register_register_imul,
}

-- `mode | reg | rm`, for a field `reg` that is given by its bits
abbrev pub mod_digit_rm : ℕ → Operand → ℕ
mod_digit_rm reg a = bit_or (bit_or register_addressing_mode reg) (to_32_bit_register (as_reg a))

-- A dword, or a byte below 128.
abbrev pub append_immediate : ℕ → Emit ℕ
append_immediate v = if leb 128 v then emit_dword_immediate_value v else append v

-- the opcode, `short_form` being that of the instruction on `rax`
abbrev pub immediate_opcode : ℕ → Operand → ℕ → ℕ
immediate_opcode short_form a v =
    if leb 128 v then (if as_reg a == rax then short_form else 0x81) else 0x83

unfoldable pub emit_register_immediate_add : Operand → Operand → Emit ℕ
emit_register_immediate_add a b = do
  let v = as_immediate b
  index ← append (if leb r9 (as_reg a) then 0x49 else 0x48)
  append (immediate_opcode 0x05 a v)
  if not (as_reg a == rax) || leb v 128 then append (mod_digit_rm 0 a) else return 0
  append_immediate v
  return index

unfoldable pub emit_register_immediate_sub : Operand → Operand → Emit ℕ
emit_register_immediate_sub a b = do
  let v = as_immediate b
  index ← append (single_prefix a)
  append (immediate_opcode 0x2d a v)
  if not (as_reg a == rax) || ltb v 128
      then append (0xe8 + to_32_bit_register (as_reg a))
      else return 0
  append_immediate v
  return index

unfoldable pub emit_register_immediate_binary_and : Operand → Operand → Emit ℕ
emit_register_immediate_binary_and a b = do
  let v = as_immediate b
  index ← append (single_prefix a)
  append (immediate_opcode 0x25 a v)
  if ltb v 128 || not (as_reg a == rax) then append (mod_digit_rm (0x01 * 2 ^ 5) a) else return 0
  append_immediate v
  return index

unfoldable pub emit_register_immediate_binary_or : Operand → Operand → Emit ℕ
emit_register_immediate_binary_or a b = do
  let v = as_immediate b
  index ← append (single_prefix a)
  append (immediate_opcode 0x0d a v)
  if ltb v 128 || not (as_reg a == rax) then append (mod_digit_rm (0x01 * 2 ^ 3) a) else return 0
  append_immediate v
  return index

unfoldable pub emit_register_immediate_cmp : Operand → Operand → Emit ℕ
emit_register_immediate_cmp a b = do
  index ← append (get_64_bit_binary_op_prefix a b)
  append (if as_reg a == rax && leb 128 (as_immediate b) then 0x3D else 0x81)
  if not (as_reg a == rax) then append (mod_digit_rm 0x30 a) else return 0
  emit_dword_immediate_value (as_immediate b)
  return index

unfoldable pub emit_register_immediate_imul : Operand → Operand → Emit ℕ
emit_register_immediate_imul a b = do
  index ← append (get_64_bit_binary_op_prefix a b)
  append 0x69
  append (mod_reg_rm register_addressing_mode (as_reg a) (as_reg a))
  emit_dword_immediate_value (as_immediate b)
  return index

-- The choice that all but `imul` make.
by_type : (Operand → Operand → Emit ℕ) → (Operand → Operand → Emit ℕ) → Operand → Operand → Emit ℕ
by_type two one (register_operand a) (register_operand b) =
    two (register_operand a) (register_operand b)
by_type two one (register_operand a) (immediate_operand v) =
    one (register_operand a) (immediate_operand v)
by_type two one _ _ = runtime_panic

unfoldable pub emit_add : Operand → Operand → Emit ℕ
unfolding by_type emit_register_register_add emit_register_immediate_add
emit_add = by_type emit_register_register_add emit_register_immediate_add

unfoldable pub emit_sub : Operand → Operand → Emit ℕ
unfolding by_type emit_register_register_sub emit_register_immediate_sub
emit_sub = by_type emit_register_register_sub emit_register_immediate_sub

unfoldable pub emit_cmp : Operand → Operand → Emit ℕ
unfolding by_type emit_register_register_cmp emit_register_immediate_cmp
emit_cmp = by_type emit_register_register_cmp emit_register_immediate_cmp

unfoldable pub emit_and : Operand → Operand → Emit ℕ
unfolding by_type emit_register_register_binary_and emit_register_immediate_binary_and
emit_and = by_type emit_register_register_binary_and emit_register_immediate_binary_and

unfoldable pub emit_or : Operand → Operand → Emit ℕ
unfolding by_type emit_register_register_binary_or emit_register_immediate_binary_or
emit_or = by_type emit_register_register_binary_or emit_register_immediate_binary_or

-- Any operands but two registers go to the form with an immediate.
unfoldable pub emit_imul : Operand → Operand → Emit ℕ
unfolding emit_register_register_imul emit_register_immediate_imul
emit_imul (register_operand a) (register_operand b) =
    emit_register_register_imul (register_operand a) (register_operand b)
emit_imul a b = emit_register_immediate_imul a b
