-- ===== src/Examples/Encoding.antt =====
-- The encoders of src/runtime/jit/x64/opcodes.c on single operands.
use lox_vm.Prelude.{ℕ, ◌-◌, ◌^◌, ◌≡◌, ◌↔◌, arith}
use lox_vm.Prelude.Int.{pos, negsuc}
use lox_vm.Jit.X64.Operands.{register_operand, immediate_operand, register_disp_operand}
use lox_vm.Jit.X64.Moves.{emit_mov}
use lox_vm.Jit.X64.Arithmetic.{
  emit_setl_al, emit_setg_al, emit_sete_al, emit_inc, emit_dec, emit_neg, emit_idiv, emit_al_movzx,
}
use lox_vm.Jit.X64.Immediates.{emit_add, emit_sub, emit_cmp, emit_and, emit_or, emit_imul}
use lox_vm.Jit.X64.Control.{
  emit_ret, emit_nop, emit_push, emit_pop, emit_call, emit_near_jmp, emit_near_jne, emit_int,
}
use lox_vm.Jit.X64.Decoder.{
  setl_al, setg_al, sete_al, ret, nop, Encodes, add, sub, cmp, and_bits, or_bits, xor_bits, alu,
  alu_immediate, mov, mov_immediate, load, store, imul, inc, dec, neg, idiv, push, pop, call, jmp,
  jne, int, movzx_al,
}
use lox_vm.Jit.X64.Registers.{register_instructions, emit_imul-registers}
use lox_vm.Jit.X64.Singles.{one_register_instructions}
use lox_vm.Jit.X64.Jumps.{jump_instructions, small_instructions}
use lox_vm.Jit.X64.Memory.{memory_instructions}
use lox_vm.Jit.X64.Constants.{constant_moves}
use lox_vm.Jit.X64.AluConstants.{constant_instructions, emit_add-constant, emit_cmp-constant}

register_instructions_example :
    let x = register_operand 9 in
    let y = register_operand 3 in
    Encodes (emit_add x y) (alu add 9 3)
    × Encodes (emit_sub x y) (alu sub 9 3)
    × Encodes (emit_cmp x y) (alu cmp 9 3)
    × Encodes (emit_and x y) (alu and_bits 9 3)
    × Encodes (emit_or x y) (alu or_bits 9 3)
    × Encodes (emit_mov x y) (mov 9 3)
register_instructions_example = register_instructions 9 3 (omega arith) (omega arith)

-- `imul r9, rbx` is encoded as `imul rcx, r11`.
emit_imul-registers_example :
    Encodes (emit_imul (register_operand 9) (register_operand 3)) (imul 1 11)
    × ((imul 1 11 ≡ imul 9 3) ↔ ◌≡◌ {A = ℕ} 1 0)
emit_imul-registers_example = emit_imul-registers 9 3 (omega arith) (omega arith)

-- A base of `r12` and an offset that needs four bytes.
memory_instructions_example :
    Encodes
      (emit_mov (register_disp_operand 12 (negsuc 255)) (register_operand 1))
      (store 12 (2 ^ 64 - 256) 1)
    × Encodes
        (emit_mov (register_operand 1) (register_disp_operand 12 (negsuc 255)))
        (load 1 12 (2 ^ 64 - 256))
memory_instructions_example =
    memory_instructions 12 1 (omega arith) (omega arith) (negsuc 255) (omega arith)

-- The quiet NaN that stands for nil.
constant_moves_example :
    Encodes
      (emit_mov (register_operand 10) (immediate_operand 0x7ffc000000000001))
      (mov_immediate 10 0x7ffc000000000001)
constant_moves_example = constant_moves 10 0x7ffc000000000001 (omega arith) (omega arith)

constant_instructions_example :
    let x = register_operand 0 in
    let y = immediate_operand 300 in
    Encodes (emit_sub x y) (alu_immediate sub 0 300)
    × Encodes (emit_and x y) (alu_immediate and_bits 0 300)
    × Encodes (emit_or x y) (alu_immediate or_bits 0 300)
constant_instructions_example = constant_instructions 0 300 (omega arith) (omega arith)

emit_add-constant_example :
    Encodes (emit_add (register_operand 4) (immediate_operand 128)) (alu_immediate add 4 128)
emit_add-constant_example =
    emit_add-constant 4 128 (omega arith) (omega arith) (λ e. omega (arith, e))
      (λ e. omega (arith, e.0))

emit_cmp-constant_example :
    Encodes (emit_cmp (register_operand 1) (immediate_operand 7)) (alu_immediate xor_bits 1 7)
emit_cmp-constant_example =
    emit_cmp-constant 1 7 (omega arith) (omega arith) (λ e. omega (arith, e))

one_register_instructions_example :
    let x = register_operand 12 in
    Encodes (emit_inc x) (inc 12)
    × Encodes (emit_dec x) (dec 12)
    × Encodes (emit_neg x) (neg 12)
    × Encodes (emit_idiv x) (idiv 12)
    × Encodes (emit_push x) (push 12)
    × Encodes (emit_pop x) (pop 12)
    × Encodes (emit_call x) (call 12)
one_register_instructions_example = one_register_instructions 12 (omega arith)

jump_instructions_example :
    Encodes (emit_near_jmp (negsuc 4)) (jmp (2 ^ 64 - 5))
    × Encodes (emit_near_jne (negsuc 4)) (jne (2 ^ 64 - 5))
jump_instructions_example = jump_instructions (negsuc 4) (omega arith)

small_instructions_example :
    Encodes (emit_al_movzx (register_operand 9)) (movzx_al 9)
    × Encodes (emit_int (pos 3)) (int 3)
    × Encodes emit_setl_al setl_al
    × Encodes emit_setg_al setg_al
    × Encodes emit_sete_al sete_al
    × Encodes emit_ret ret
    × Encodes emit_nop nop
small_instructions_example = small_instructions 9 3 (omega arith) (omega arith)
