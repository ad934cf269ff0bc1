-- ===== src/Jit/X64/Emit.antt =====
-- The buffer of src/runtime/jit/x64/opcodes.c, as its contents, and the pieces that all encoders use.
-- `none` is a call of `runtime_panic`.
use lox_vm.Prelude.{
  ℕ, ◌+◌, ◌*◌, ◌/◌, ◌%◌, ◌^◌, List, [], ◌∷◌, ◌++◌, Option, none, some, Bool, false, leb, ltb,
  if◌then◌else◌, length, bit_or, bit_and,
}
use lox_vm.Prelude.Int.{ℤ, pos, negsuc}
use lox_vm.Jit.X64.Operands.{
  Operand, immediate_operand, register_operand, register_disp_operand, r8, to_32_bit_register,
}

abbrev pub Code : Type 0
Code = List ℕ

abbrev pub Emit : Type 0 → Type 0
Emit A = Code → Option (A × Code)

infixl 5 ◌>>=◌ ◌>>◌
abbrev pub ◌>>=◌ : {A B : Type 0} → Emit A → (A → Emit B) → Emit B
◌>>=◌ m f code = elim (m code) [ none ↦ none | some (a, code') ↦ f a code' ]

abbrev pub ◌>>◌ : {A B : Type 0} → Emit A → Emit B → Emit B
m >> k = m >>= λ _. k

abbrev pub return : {A : Type 0} → A → Emit A
return a code = some (a, code)

abbrev pub runtime_panic : {A : Type 0} → Emit A
runtime_panic code = none

-- `append_u8_arraylist`: the value becomes a `uint8_t`, and its index a `uint16_t`.
abbrev pub append : ℕ → Emit ℕ
append value code = some (length code % 2 ^ 16, code ++ (value % 256) ∷ [])

abbrev pub in_use : Emit ℕ
in_use code = some (length code % 2 ^ 16, code)

-- `emit_dword_immediate_value`
abbrev pub emit_dword_immediate_value : ℕ → Emit ℕ
emit_dword_immediate_value v = do
  append (bit_and v 0xFF)
  append (bit_and (v / 2 ^ 8) 0xFF)
  append (bit_and (v / 2 ^ 16) 0xFF)
  append (bit_and (v / 2 ^ 24) 0xFF)

abbrev pub emit_qword_immediate_value : ℕ → Emit ℕ
emit_qword_immediate_value v = do
  emit_dword_immediate_value v
  append (bit_and (v / 2 ^ 32) 0xFF)
  append (bit_and (v / 2 ^ 40) 0xFF)
  append (bit_and (v / 2 ^ 48) 0xFF)
  append (bit_and (v / 2 ^ 56) 0xFF)

-- whether the register of an operand is one of the upper eight
abbrev pub is_large : Operand → Bool
is_large (immediate_operand v) = false
is_large (register_operand r) = leb r8 r
is_large (register_disp_operand r d) = leb r8 r

abbrev pub rex_prefix : ℕ
rex_prefix = 0x48

-- `get_64_bit_binary_op_prefix`
abbrev pub get_64_bit_binary_op_prefix : Operand → Operand → ℕ
get_64_bit_binary_op_prefix a b =
    let prefix = if is_large a then bit_or rex_prefix 0x01 else rex_prefix in
    if is_large b then bit_or prefix 0x04 else prefix

-- `get_16_bit_prefix`
abbrev pub get_16_bit_prefix : ℕ
get_16_bit_prefix = 0x0F

abbrev pub register_addressing_mode : ℕ
register_addressing_mode = 0xC0

abbrev pub byte_displacement_mode : ℕ
byte_displacement_mode = 0x40

abbrev pub dword_displacement_mode : ℕ
dword_displacement_mode = 0x80

abbrev pub zero_displacement_mode : ℕ
zero_displacement_mode = 0x00

-- `mode | reg << 3 | rm`, for two registers
abbrev pub mod_reg_rm : ℕ → ℕ → ℕ → ℕ
mod_reg_rm mode reg rm =
    bit_or (bit_or mode (to_32_bit_register reg * 2 ^ 3)) (to_32_bit_register rm)

-- `IS_BYTE_SIZE` of an `int`
abbrev pub is_byte_size : ℤ → Bool
is_byte_size (pos n) = ltb n 128
is_byte_size (negsuc n) = leb (n + 1) 127
