-- ===== src/Jit/X64/Registers.antt =====
-- The instructions of opcodes.c between two registers, decoded.
use lox_vm.Prelude.{ℕ, ◌+◌, ◌*◌, ◌/◌, ◌%◌, ◌<◌, ◌≡◌, ◌↔◌, refl, List, [], ◌∷◌, arith, some}
use lox_vm.Jit.X64.Operands.{register_operand}
use lox_vm.Jit.X64.Emit.{◌>>=◌, ◌>>◌, append, return, get_64_bit_binary_op_prefix, mod_reg_rm}
use lox_vm.Jit.X64.Moves.{emit_mov}
use lox_vm.Jit.X64.Arithmetic.{binary_and_prefix}
use lox_vm.Jit.X64.Immediates.{emit_add, emit_sub, emit_cmp, emit_and, emit_or, emit_imul}
use lox_vm.Jit.X64.Decoder.{
  Instruction, alu, add, sub, cmp, or_bits, and_bits, mov, imul, Encodes, decode,
}
use lox_vm.Jit.X64.Fields.{mod_reg_rm-register, prefix_lem}
use lox_vm.Jit.X64.Sequences.{append_byte, return_nothing, then-Returns, first-Returns}

abbrev pub rex : ℕ → ℕ → ℕ
rex a b = 72 + 4 * (b / 8) + a / 8

abbrev pub modrm : ℕ → ℕ → ℕ
modrm reg rm = 192 + reg % 8 * 8 + rm % 8

-- a prefix, an opcode and a ModRM byte
pub three-Encodes :
    (x y z x' z' : ℕ) (i : Instruction)
    → x % 256 ≡ x'
    → y % 256 ≡ y
    → z % 256 ≡ z'
    → ((rest : List ℕ) → decode (x' ∷ y ∷ z' ∷ rest) ≡ some (i, rest))
    → Encodes (append x >>= λ index. (append y >> (append z >> return index))) i
three-Encodes x y z x' z' i p q r d = record {
  bytes = x' ∷ y ∷ z' ∷ [];
  emitted = first-Returns x x' _ p λ index.
      then-Returns _ _ (append_byte y y q)
        (then-Returns _ _ (append_byte z z' r) (return_nothing index));
  decoded = d;
}

module _ (a b : ℕ) (p : a < 16) (q : b < 16) where
  prefix_byte :
      get_64_bit_binary_op_prefix (register_operand a) (register_operand b) % 256 ≡ rex a b
  prefix_byte = omega (arith, prefix_lem a b p q)

  modrm_byte : mod_reg_rm 0xC0 b a % 256 ≡ modrm b a
  modrm_byte = omega (arith, mod_reg_rm-register b a q p)

  -- Between two registers, `add`, `sub`, `cmp`, `and`, `or` and `mov` are encoded as the
  -- instruction on just these registers, whichever of the sixteen they are: the bytes decode to it,
  -- whatever follows, and the index returned is where they begin.
  pub register_instructions :
      let x = register_operand a in
      let y = register_operand b in
      Encodes (emit_add x y) (alu add a b)
      × Encodes (emit_sub x y) (alu sub a b)
      × Encodes (emit_cmp x y) (alu cmp a b)
      × Encodes (emit_and x y) (alu and_bits a b)
      × Encodes (emit_or x y) (alu or_bits a b)
      × Encodes (emit_mov x y) (mov a b)
  unfolding emit_add emit_sub emit_cmp emit_and emit_or emit_mov
  register_instructions =
      let x = register_operand a in
      let y = register_operand b in
      (
        three-Encodes _ 0x01 _ (rex a b) (modrm b a) _ prefix_byte refl modrm_byte
            (λ rest. ground arith),
        three-Encodes _ 0x29 _ (rex a b) (modrm b a) _ prefix_byte refl modrm_byte
            (λ rest. ground arith),
        three-Encodes _ 0x39 _ (rex a b) (modrm b a) _ prefix_byte refl modrm_byte
            (λ rest. ground arith),
        three-Encodes (binary_and_prefix x y) 0x21 _ (rex a b) (modrm b a) _ (ground arith) refl
            modrm_byte (λ rest. ground arith),
        three-Encodes _ 0x09 _ (rex a b) (modrm b a) _ prefix_byte refl modrm_byte
            (λ rest. ground arith),
        three-Encodes _ 0x89 _ (rex a b) (modrm b a) _ prefix_byte refl modrm_byte
            (λ rest. ground arith),
      )

  imul_modrm : mod_reg_rm 0xC0 a b % 256 ≡ modrm a b
  imul_modrm = omega (arith, mod_reg_rm-register a b p q)

  -- `imul` of two registers: the prefix bits of the two operands are exchanged, so what is encoded
  -- multiplies the intended registers only if both or neither are among the upper eight.
  pub emit_imul-registers :
      Encodes
        (emit_imul (register_operand a) (register_operand b))
        (imul (a % 8 + 8 * (b / 8)) (b % 8 + 8 * (a / 8)))
      × ((imul (a % 8 + 8 * (b / 8)) (b % 8 + 8 * (a / 8)) ≡ imul a b) ↔ (a / 8 ≡ b / 8))
  unfolding emit_imul
  emit_imul-registers = (
    record {
      bytes = rex a b ∷ 0x0F ∷ 0xAF ∷ modrm a b ∷ [];
      emitted = first-Returns _ (rex a b) _ prefix_byte λ index.
          then-Returns _ _ (append_byte 0x0F 0x0F refl) (
            then-Returns _ _ (append_byte 0xAF 0xAF refl)
              (then-Returns _ _ (append_byte _ (modrm a b) imul_modrm) (return_nothing index)));
      decoded = λ rest. ground arith;
    },
    (λ e. ground arith, λ e. ground arith),
  )
