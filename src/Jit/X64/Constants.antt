-- ===== src/Jit/X64/Constants.antt =====
-- The instructions of opcodes.c with an immediate, decoded.
use lox_vm.Prelude.{
  ℕ, zero, suc, ◌+◌, ◌*◌, ◌/◌, ◌%◌, ◌^◌, ◌<◌, ◌≤◌, ◌≡◌, refl, ap, ◌∙◌, List, ◌∷◌, ◌++◌, arith, ◌==◌,
  leb, ltb, if◌then◌else◌, some, true, Bool-cases, inl, inr, bit_and,
}
use lox_vm.Prelude.Bits.{high_test}
use lox_vm.Jit.X64.Operands.{register_operand, immediate_operand, to_32_bit_register}
use lox_vm.Jit.X64.Emit.{append, mod_reg_rm}
use lox_vm.Jit.X64.Moves.{emit_mov}
use lox_vm.Jit.X64.Decoder.{
  wide, mov_qword, dword_constant, mov_immediate, Encodes, decode, sign_extend_8, sign_extend_32,
}
use lox_vm.Jit.X64.Fields.{mod_reg_rm-register, to_32_bit_register_lem}
use lox_vm.Jit.X64.Jumps.{read_dword_back}
use lox_vm.Jit.X64.Sequences.{
  append_byte, then-Appends, then-Returns, first-Returns, last-Returns, dword, qword, dword-Appends,
  qword-Appends, dword_value,
}

-- what `mov` with a constant leaves in the register
abbrev pub moved_constant : ℕ → ℕ
moved_constant v = if ltb v (2 ^ 32) then sign_extend_32 v else v

low_half : (v : ℕ) → v < 2 ^ 32 → v % 2 ^ 32 ≡ v
low_half v h = omega arith

pub small_constant :
    (v : ℕ) (rest : List ℕ) → v < 2 ^ 31 → dword_constant (dword v ++ rest) ≡ some (v, rest)
small_constant v rest h = read_dword_back v rest ∙ ap (λ x. some (x, rest)) (ground arith)

pub small_byte : (v : ℕ) → v < 128 → sign_extend_8 (v % 256) ≡ v
small_byte v h = ground arith

qword_opcode :
    (k b : ℕ) (rest : List ℕ) → k < 8 → wide 0 b ((184 + k) ∷ rest) ≡ mov_qword (k + b) rest
qword_opcode zero b rest h = refl
qword_opcode (suc zero) b rest h = refl
qword_opcode (suc (suc zero)) b rest h = refl
qword_opcode (suc (suc (suc zero))) b rest h = refl
qword_opcode (suc (suc (suc (suc zero)))) b rest h = refl
qword_opcode (suc (suc (suc (suc (suc zero))))) b rest h = refl
qword_opcode (suc (suc (suc (suc (suc (suc zero)))))) b rest h = refl
qword_opcode (suc (suc (suc (suc (suc (suc (suc zero))))))) b rest h = refl
qword_opcode (suc (suc (suc (suc (suc (suc (suc (suc k)))))))) b rest h = absurd (omega arith)

module _ (a v : ℕ) (p : a < 16) where
  constant_prefix : (if leb 8 a then 0x49 else 0x48) % 256 ≡ 72 + a / 8
  constant_prefix = ground arith

  wide_prefix : ((72 + a / 8) / 8 == 9) ≡ true
  wide_prefix = ground arith

  prefix_b : (72 + a / 8) % 2 ≡ a / 8
  prefix_b = omega arith

  prefix_r : (72 + a / 8) / 4 % 2 ≡ 0
  prefix_r = omega arith

  pub wide_form : (bytes : List ℕ) → decode ((72 + a / 8) ∷ bytes) ≡ wide 0 (8 * (a / 8)) bytes
  wide_form bytes = rw (wide_prefix, prefix_b, prefix_r) refl

  -- a register in the field of an opcode
  opcode_register : (0xB8 + to_32_bit_register a) % 256 ≡ 184 + a % 8
  opcode_register = omega (arith, to_32_bit_register_lem a p)

  constant_modrm : mod_reg_rm 0xC0 0 a % 256 ≡ 192 + a % 8
  constant_modrm = omega (arith, mod_reg_rm-register 0 a (omega arith) p)

  qword_form :
      (rest : List ℕ)
      → 2 ^ 32 ≤ v
      → v < 2 ^ 64
      → mov_qword a (qword v ++ rest) ≡ some (mov_immediate a v, rest)
  qword_form rest low high = ap (λ x. some (mov_immediate a x, rest)) (omega arith)

  register_back : (184 + a % 8) % 8 + 8 * (a / 8) ≡ a
  register_back = omega arith

  direct_mode : ((192 + a % 8) / 64 == 3) ≡ true
  direct_mode = ground arith

  field_zero : ((192 + a % 8) / 8 % 8 == 0) ≡ true
  field_zero = ground arith

  rm_back : (192 + a % 8) % 8 + 8 * (a / 8) ≡ a
  rm_back = omega arith

  small_move_decoded :
      (rest : List ℕ)
      → v < 2 ^ 32
      → decode ((72 + a / 8) ∷ 0xC7 ∷ (192 + a % 8) ∷ (dword v ++ rest))
        ≡ some (mov_immediate a (sign_extend_32 v), rest)
  small_move_decoded rest h =
      wide_form (0xC7 ∷ (192 + a % 8) ∷ (dword v ++ rest))
      ∙ rw (direct_mode, field_zero, rm_back)
          (ap (λ x. some (mov_immediate a (sign_extend_32 x), rest)) (dword_value v ∙ low_half v h))

  large_move_decoded :
      (rest : List ℕ)
      → 2 ^ 32 ≤ v
      → v < 2 ^ 64
      → decode ((72 + a / 8) ∷ (184 + a % 8) ∷ (qword v ++ rest)) ≡ some (mov_immediate a v, rest)
  large_move_decoded rest low high =
      wide_form ((184 + a % 8) ∷ (qword v ++ rest))
      ∙ qword_opcode (a % 8) (8 * (a / 8)) (qword v ++ rest) (omega arith)
      ∙ ap (λ r. mov_qword r (qword v ++ rest)) (omega arith)
      ∙ qword_form rest low high

  -- `mov` of any 64-bit constant to any register decodes to the `mov` of `moved_constant`: the constant
  -- itself below `2 ^ 31` and from `2 ^ 32` on, and its extension by the sign bit in between.
  pub constant_moves :
      v < 2 ^ 64
      → Encodes
          (emit_mov (register_operand a) (immediate_operand v))
          (mov_immediate a (moved_constant v))
  unfolding emit_mov
  constant_moves h = elim (Bool-cases (bit_and v 0xFFFFFFFF00000000 == 0)) [
    | inl e ↦
        let small = (high_test v h).0 e in
        record {
          bytes = (72 + a / 8) ∷ 0xC7 ∷ (192 + a % 8) ∷ dword v;
          emitted = λ code. rw e (
              first-Returns (if leb 8 a then 0x49 else 0x48) (72 + a / 8) _ constant_prefix
                (λ index. then-Returns (append 0xC7) _ (append_byte 0xC7 0xC7 refl) (
                  last-Returns _ index (
                    then-Appends (append (mod_reg_rm 0xC0 0 a)) _ (append_byte _ _ constant_modrm)
                      (dword-Appends v))))
                code);
          decoded = λ rest.
              small_move_decoded rest small
              ∙ ap (λ x. some (mov_immediate a x, rest)) (ground arith);
        }
    | inr e ↦
        let large = (high_test v h).1 e in
        record {
          bytes = (72 + a / 8) ∷ (184 + a % 8) ∷ qword v;
          emitted = λ code. rw e (
              first-Returns (if leb 8 a then 0x49 else 0x48) (72 + a / 8) _ constant_prefix
                (λ index.
                  then-Returns (append (0xB8 + to_32_bit_register a)) _
                    (append_byte _ _ opcode_register) (last-Returns _ index (qword-Appends v)))
                code);
          decoded = λ rest.
              large_move_decoded rest large h
              ∙ ap (λ x. some (mov_immediate a x, rest)) (ground arith);
        }
  ]
