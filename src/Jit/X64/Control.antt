-- ===== src/Jit/X64/Control.antt =====
-- Calls, jumps and the stack in src/runtime/jit/x64/opcodes.c.
use lox_vm.Prelude.{ℕ, ◌+◌, ◌-◌, leb, if◌then◌else◌}
use lox_vm.Prelude.Int.{ℤ, to_u64}
use lox_vm.Jit.X64.Operands.{Operand, register_operand, as_reg, r8, rsp, rbp, to_32_bit_register}
use lox_vm.Jit.X64.Emit.{Emit, ◌>>=◌, ◌>>◌, return, append, in_use, emit_dword_immediate_value}
use lox_vm.Jit.X64.Moves.{emit_mov}

unfoldable pub emit_push_pop : Operand → ℕ → Emit ℕ
emit_push_pop operand base_opcode = do
  let large = leb r8 (as_reg operand)
  let reg = if large then as_reg operand - 8 else as_reg operand
  if large
      then (append 0x41 >>= λ index. (append (base_opcode + reg) >> return index))
      else append (base_opcode + reg)

unfoldable pub emit_push : Operand → Emit ℕ
unfolding emit_push_pop
emit_push operand = emit_push_pop operand 0x50

unfoldable pub emit_pop : Operand → Emit ℕ
unfolding emit_push_pop
emit_pop operand = emit_push_pop operand 0x58

unfoldable pub emit_ret : Emit ℕ
emit_ret = append 0xc3

unfoldable pub emit_nop : Emit ℕ
emit_nop = append 0x90

unfoldable pub emit_call : Operand → Emit ℕ
emit_call operand = do
  index ← in_use
  if leb r8 (as_reg operand) then append 0x41 else return 0
  append 0xFF
  append (0xD0 + to_32_bit_register (as_reg operand))
  return index

unfoldable pub emit_int : ℤ → Emit ℕ
emit_int interrupt_number = do index ← append 0xcd; append (to_u64 interrupt_number); return index

unfoldable pub emit_near_jne : ℤ → Emit ℕ
emit_near_jne offset = do
  index ← append 0x0F
  append 0x85
  emit_dword_immediate_value (to_u64 offset)
  return index

unfoldable pub emit_near_jmp : ℤ → Emit ℕ
emit_near_jmp offset = do
  index ← append 0xE9
  emit_dword_immediate_value (to_u64 offset)
  return index

unfoldable pub emit_prologue_x64_stack : Emit ℕ
unfolding emit_push emit_mov
emit_prologue_x64_stack = do
  emit_push (register_operand rbp)
  emit_mov (register_operand rbp) (register_operand rsp)

unfoldable pub emit_epilogue_x64_stack : Emit ℕ
unfolding emit_pop emit_ret
emit_epilogue_x64_stack = do emit_pop (register_operand rbp); emit_ret
