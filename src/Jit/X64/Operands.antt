-- ===== src/Jit/X64/Operands.antt =====
-- src/runtime/jit/x64/operands.h and registers.h. A register is its number in `register_t`.
use lox_vm.Prelude.{ℕ, ◌+◌, ◌*◌, ◌%◌, ◌^◌, bit_and}
use lox_vm.Prelude.Int.{ℤ, to_u64}

pub data Operand : Type 0 where
  immediate_operand : ℕ → Operand
  register_operand : ℕ → Operand
  register_disp_operand : ℕ → ℤ → Operand

abbrev pub rax : ℕ
rax = 0

abbrev pub rsp : ℕ
rsp = 4

abbrev pub rbp : ℕ
rbp = 5

abbrev pub r8 : ℕ
r8 = 8

abbrev pub r9 : ℕ
r9 = 9

-- `as.reg`, which is the low half of the union
abbrev pub as_reg : Operand → ℕ
as_reg (immediate_operand v) = v % 2 ^ 32
as_reg (register_operand r) = r
as_reg (register_disp_operand r d) = r

-- `as.immediate`. A register operand is built by a literal that sets the whole union.
abbrev pub as_immediate : Operand → ℕ
as_immediate (immediate_operand v) = v
as_immediate (register_operand r) = r
as_immediate (register_disp_operand r d) = r + 2 ^ 32 * (to_u64 d % 2 ^ 32)

-- `TO_32_BIT_REGISTER`
abbrev pub to_32_bit_register : ℕ → ℕ
to_32_bit_register reg = bit_and reg 0x07
