-- ===== src/Jit/X64/Singles.antt =====
-- The instructions of opcodes.c on one register or none, and the jumps, decoded.
use lox_vm.Prelude.{
  ℕ, ◌+◌, ◌-◌, ◌*◌, ◌/◌, ◌%◌, ◌^◌, ◌<◌, ◌≤◌, ◌≡◌, refl, ap, append_assoc, List, [], ◌∷◌, ◌++◌,
  arith, leb, Bool-cases, if◌then◌else◌, length, Option, some, inl, inr, true, false,
}
use lox_vm.Jit.X64.Operands.{register_operand, to_32_bit_register}
use lox_vm.Jit.X64.Emit.{Code, append}
use lox_vm.Jit.X64.Arithmetic.{
  single_prefix, emit_dec, emit_inc, emit_neg, emit_idiv, emit_setl_al, emit_setg_al, emit_sete_al,
}
use lox_vm.Jit.X64.Control.{emit_push_pop, emit_push, emit_pop, emit_call, emit_ret, emit_nop}
use lox_vm.Jit.X64.Decoder.{
  Instruction, inc, dec, neg, idiv, push, pop, call, setl_al, setg_al, sete_al, ret, nop, Encodes,
  decode,
}
use lox_vm.Jit.X64.Fields.{mod_reg_rm-register, to_32_bit_register_lem}
use lox_vm.Jit.X64.Registers.{three-Encodes}
use lox_vm.Jit.X64.Sequences.{append_byte, return_nothing, then-Returns}

module _ (a : ℕ) (p : a < 16) where
  digit_byte : (base : ℕ) → base ≤ 248 → (base + to_32_bit_register a) % 256 ≡ base + a % 8
  digit_byte base h = omega (arith, to_32_bit_register_lem a p)

  pub single_byte : single_prefix (register_operand a) % 256 ≡ 72 + a / 8
  single_byte = ground arith

  movzx_byte : (if leb 8 a then 0x4C else 0x48) % 256 ≡ 72 + 4 * (a / 8)
  movzx_byte = ground arith

  -- `inc`, `dec`, `neg` and `idiv` of each of the sixteen registers decode to themselves.
  pub single_instructions :
      let x = register_operand a in
      Encodes (emit_inc x) (inc a)
      × Encodes (emit_dec x) (dec a)
      × Encodes (emit_neg x) (neg a)
      × Encodes (emit_idiv x) (idiv a)
  unfolding emit_inc emit_dec emit_neg emit_idiv
  single_instructions =
      let x = register_operand a in
      (
        three-Encodes (single_prefix x) 0xFF _ (72 + a / 8) (192 + a % 8) _ single_byte refl
            (digit_byte 0xc0 (omega arith)) (λ rest. ground arith),
        three-Encodes (single_prefix x) 0xFF _ (72 + a / 8) (200 + a % 8) _ single_byte refl
            (digit_byte 0xc8 (omega arith)) (λ rest. ground arith),
        three-Encodes (single_prefix x) 0xF7 _ (72 + a / 8) (216 + a % 8) _ single_byte refl
            (digit_byte 0xD8 (omega arith)) (λ rest. ground arith),
        three-Encodes (single_prefix x) 0xF7 _ (72 + a / 8) (192 + 56 + a % 8) _ single_byte refl
            (omega (arith, mod_reg_rm-register 7 a (omega arith) p)) (λ rest. ground arith),
      )

  narrow_byte :
      (base : ℕ) → base ≤ 240 → (base + (if leb 8 a then a - 8 else a)) % 256 ≡ base + a % 8
  narrow_byte base h = ground arith

  ends_with :
      (code : Code) (base : ℕ) {i : ℕ}
      → base ≤ 240
      → leb 8 a ≡ true
      → ◌≡◌ {A = Option (ℕ × Code)}
          (some (i, (code ++ 0x41 ∷ []) ++ (base + (a - 8)) % 256 ∷ []))
          (some (i, code ++ 0x41 ∷ (base + a % 8) ∷ []))
  ends_with code base {i} h e =
      let byte : (base + (a - 8)) % 256 ≡ base + a % 8 = ground arith in
      rw byte (ap (λ c. some (i, c)) (append_assoc code (0x41 ∷ []) ((base + a % 8) ∷ [])))

  ends_alone :
      (code : Code) (base : ℕ) {i : ℕ}
      → base ≤ 240
      → leb 8 a ≡ false
      → ◌≡◌ {A = Option (ℕ × Code)}
          (some (i, code ++ (base + a) % 256 ∷ []))
          (some (i, code ++ (base + a % 8) ∷ []))
  ends_alone code base {i} h e =
      let byte : (base + a) % 256 ≡ base + a % 8 = ground arith in rw byte

  push_pop-Encodes :
      (base : ℕ) (i : Instruction)
      → base ≤ 240
      → (leb 8 a ≡ true → (rest : List ℕ) → decode (0x41 ∷ (base + a % 8) ∷ rest) ≡ some (i, rest))
      → (leb 8 a ≡ false → (rest : List ℕ) → decode ((base + a % 8) ∷ rest) ≡ some (i, rest))
      → Encodes (emit_push_pop (register_operand a) base) i
  unfolding emit_push_pop
  push_pop-Encodes base i h large small = elim (Bool-cases (leb 8 a)) [
    | inl e ↦ record {
      bytes = 0x41 ∷ (base + a % 8) ∷ [];
      emitted = λ code. rw e (ends_with code base h e);
      decoded = large e;
    }
    | inr e ↦ record {
      bytes = (base + a % 8) ∷ [];
      emitted = λ code. rw e (ends_alone code base h e);
      decoded = small e;
    }
  ]

  call-Encodes : Encodes (emit_call (register_operand a)) (call a)
  unfolding emit_call
  call-Encodes =
      let tail = λ (index : ℕ). then-Returns (append 0xFF) _ (append_byte 0xFF 0xFF refl) (
        then-Returns (append (0xD0 + to_32_bit_register a)) _
          (append_byte _ (0xD0 + a % 8) (digit_byte 0xD0 (omega arith))) (return_nothing index)) in
      elim (Bool-cases (leb 8 a)) [
        | inl e ↦ record {
          bytes = 0x41 ∷ 0xFF ∷ (0xD0 + a % 8) ∷ [];
          emitted = λ code. rw e (
              then-Returns (append 0x41) _ (append_byte 0x41 0x41 refl)
                (tail (length code % 2 ^ 16)) code);
          decoded = λ rest. ground arith;
        }
        | inr e ↦ record {
          bytes = 0xFF ∷ (0xD0 + a % 8) ∷ [];
          emitted = λ code. rw e (tail (length code % 2 ^ 16) code);
          decoded = λ rest. ground arith;
        }
      ]

  -- `push`, `pop` and `call` of each of the sixteen registers decode to themselves: the prefix byte
  -- stands before the upper eight only.
  pub stack_instructions :
      let x = register_operand a in
      Encodes (emit_push x) (push a) × Encodes (emit_pop x) (pop a) × Encodes (emit_call x) (call a)
  unfolding emit_push emit_pop
  stack_instructions = (
    push_pop-Encodes 0x50 (push a) (omega arith) (λ e rest. ground arith) (λ e rest. ground arith),
    push_pop-Encodes 0x58 (pop a) (omega arith) (λ e rest. ground arith) (λ e rest. ground arith),
    call-Encodes,
  )

-- What the comparisons leave in `al`, and the instructions with no operand, decode to themselves.
pub plain_instructions :
    Encodes emit_setl_al setl_al
    × Encodes emit_setg_al setg_al
    × Encodes emit_sete_al sete_al
    × Encodes emit_ret ret
    × Encodes emit_nop nop
unfolding emit_setl_al emit_setg_al emit_sete_al emit_ret emit_nop
plain_instructions = (
  three-Encodes 0x0F 0x9C 0xC0 0x0F 0xC0 _ refl refl refl (λ rest. refl),
  three-Encodes 0x0F 0x9F 0xC0 0x0F 0xC0 _ refl refl refl (λ rest. refl),
  three-Encodes 0x0F 0x94 0xC0 0x0F 0xC0 _ refl refl refl (λ rest. refl),
  record { bytes = 0xC3 ∷ []; emitted = λ code. refl; decoded = λ rest. refl },
  record { bytes = 0x90 ∷ []; emitted = λ code. refl; decoded = λ rest. refl },
)

-- `inc`, `dec`, `neg` and `idiv` of 64 bits and `push`, `pop` and `call` of each of the sixteen registers
-- decode to themselves.
pub one_register_instructions :
    (a : ℕ)
    → a < 16
    → let x = register_operand a in
      Encodes (emit_inc x) (inc a)
      × Encodes (emit_dec x) (dec a)
      × Encodes (emit_neg x) (neg a)
      × Encodes (emit_idiv x) (idiv a)
      × Encodes (emit_push x) (push a)
      × Encodes (emit_pop x) (pop a)
      × Encodes (emit_call x) (call a)
one_register_instructions a p =
    let s = single_instructions a p in
    let t = stack_instructions a p in (s.0, s.1, s.2, s.3, t.0, t.1, t.2)
