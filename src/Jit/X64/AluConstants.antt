-- ===== src/Jit/X64/AluConstants.antt =====
-- The binary operations of opcodes.c with an immediate, decoded.
use lox_vm.Prelude.{
  ℕ, ◌+◌, ◌*◌, ◌/◌, ◌%◌, ◌^◌, ◌<◌, ◌≡◌, refl, ap, ◌∙◌, List, [], ◌∷◌, ◌++◌, arith, ◌==◌, ==_iff,
  leb, ltb, if◌then◌else◌, some, Bool, true, false, ◌||◌, not, Bool-cases, inl, inr,
}
use lox_vm.Prelude.Bits.{below, below_sound}
use lox_vm.Jit.X64.Operands.{register_operand, immediate_operand, to_32_bit_register}
use lox_vm.Jit.X64.Emit.{◌>>=◌, ◌>>◌, append, return, get_64_bit_binary_op_prefix}
use lox_vm.Jit.X64.Arithmetic.{single_prefix}
use lox_vm.Jit.X64.Immediates.{
  mod_digit_rm, append_immediate, immediate_opcode, emit_add, emit_sub, emit_and, emit_or, emit_cmp,
}
use lox_vm.Jit.X64.Constants.{small_constant, small_byte, wide_form}
use lox_vm.Jit.X64.Decoder.{
  Alu, add, sub, and_bits, or_bits, xor_bits, alu_digit, wide, alu_immediate, Encodes, decode,
  rax_form, alu_with,
}
use lox_vm.Jit.X64.Fields.{to_32_bit_register_lem}
use lox_vm.Jit.X64.Singles.{single_byte}
use lox_vm.Jit.X64.Sequences.{
  append_byte, append_nothing, then-Returns, first-Returns, last-Returns, dword, dword-Appends,
}

-- A field of the ModRM byte that is written as bits.
digit_lem :
    (digit bits a : ℕ)
    → below 16 (λ a. mod_digit_rm bits (register_operand a) == 192 + digit * 8 + a % 8) ≡ true
    → a < 16
    → mod_digit_rm bits (register_operand a) % 256 ≡ (192 + digit * 8 + a % 8) % 256
digit_lem digit bits a h p =
    ap (λ x. x % 256)
      ((==_iff _ _).0 (
        below_sound 16 (λ a. mod_digit_rm bits (register_operand a) == 192 + digit * 8 + a % 8) a h
          p))

module _ (a v : ℕ) (p : a < 16) (h : v < 2 ^ 31) (op : Alu) (digit : ℕ) (q : digit < 8)
    (d : alu_digit digit ≡ some op) where
  digit_mode : ((192 + digit * 8 + a % 8) / 64 == 3) ≡ true
  digit_mode = ground arith

  digit_back : (192 + digit * 8 + a % 8) / 8 % 8 ≡ digit
  digit_back = omega arith

  digit_rm : (192 + digit * 8 + a % 8) % 8 + 8 * (a / 8) ≡ a
  digit_rm = omega arith

  byte_decoded :
      (rest : List ℕ)
      → v < 128
      → decode ((72 + a / 8) ∷ 0x83 ∷ (192 + digit * 8 + a % 8) ∷ v % 256 ∷ rest)
        ≡ some (alu_immediate op a v, rest)
  byte_decoded rest k =
      wide_form a v p (0x83 ∷ (192 + digit * 8 + a % 8) ∷ v % 256 ∷ rest)
      ∙ rw (digit_mode, digit_back, digit_rm, d, small_byte v k) refl

  dword_decoded :
      (rest : List ℕ)
      → decode ((72 + a / 8) ∷ 0x81 ∷ (192 + digit * 8 + a % 8) ∷ (dword v ++ rest))
        ≡ some (alu_immediate op a v, rest)
  dword_decoded rest =
      wide_form a v p (0x81 ∷ (192 + digit * 8 + a % 8) ∷ (dword v ++ rest))
      ∙ rw (digit_mode, digit_back, digit_rm, d) (ap (alu_with op a) (small_constant v rest h))

  -- The three shapes of an instruction on a register and a constant.
  pub immediate-Encodes :
      (first modrm short_form : ℕ) (test : Bool)
      → first % 256 ≡ 72 + a / 8
      → modrm % 256 ≡ 192 + digit * 8 + a % 8
      → short_form % 256 ≡ short_form
      → test ≡ (ltb v 128 || not (a == 0))
      → ((bytes : List ℕ) → wide 0 0 (short_form ∷ bytes) ≡ rax_form op bytes)
      → Encodes
          (append first >>= λ index.
            append (immediate_opcode short_form (register_operand a) v)
            >> ((if test then append modrm else return 0) >> (append_immediate v >> return index)))
          (alu_immediate op a v)
  immediate-Encodes first modrm short_form test f m s t w = elim (Bool-cases (leb 128 v)) [
    | inl e ↦ elim (Bool-cases (a == 0)) [
      | inl z ↦
          let skipped : test ≡ false = ground arith in
          record {
            bytes = 72 ∷ short_form ∷ dword v;
            emitted = λ code.
                rw (e, z, skipped)
                  (first-Returns first 72 _ (ground arith)
                    (λ index. then-Returns (append short_form) _ (append_byte _ _ s) (
                      then-Returns (return 0) _ (append_nothing 0)
                        (last-Returns _ index (dword-Appends v))))
                    code);
            decoded = λ rest.
                w (dword v ++ rest)
                ∙ ap (alu_with op 0) (small_constant v rest h)
                ∙ ap (λ r. some (alu_immediate op r v, rest)) (ground arith);
          }
      | inr z ↦
          let kept : test ≡ true = ground arith in
          record {
            bytes = (72 + a / 8) ∷ 0x81 ∷ (192 + digit * 8 + a % 8) ∷ dword v;
            emitted = λ code.
                rw (e, z, kept)
                  (first-Returns first (72 + a / 8) _ f
                    (λ index. then-Returns (append 0x81) _ (append_byte 0x81 0x81 refl) (
                      then-Returns (append modrm) _ (append_byte _ _ m)
                        (last-Returns _ index (dword-Appends v))))
                    code);
            decoded = dword_decoded;
          }
    ]
    | inr e ↦
        let kept : test ≡ true = ground arith in
        record {
          bytes = (72 + a / 8) ∷ 0x83 ∷ (192 + digit * 8 + a % 8) ∷ v % 256 ∷ [];
          emitted = λ code.
              rw (e, kept)
                (first-Returns first (72 + a / 8) _ f
                  (λ index. then-Returns (append 0x83) _ (append_byte 0x83 0x83 refl) (
                    then-Returns (append modrm) _ (append_byte _ _ m)
                      (last-Returns _ index (append_byte v _ refl))))
                  code);
          decoded = λ rest. byte_decoded rest (ground arith);
        }
  ]

module _ (a v : ℕ) (p : a < 16) (h : v < 2 ^ 31) where
  -- `sub`, `and` and `or` of any register and a constant below `2 ^ 31` decode to themselves, in the
  -- short form of a byte, in the form of `rax` and in the long one.
  pub constant_instructions :
      let x = register_operand a in
      let y = immediate_operand v in
      Encodes (emit_sub x y) (alu_immediate sub a v)
      × Encodes (emit_and x y) (alu_immediate and_bits a v)
      × Encodes (emit_or x y) (alu_immediate or_bits a v)
  unfolding emit_sub emit_and emit_or below
  constant_instructions =
      let x = register_operand a in
      (
        immediate-Encodes a v p h sub 5 (omega arith) refl (single_prefix x)
            (0xe8 + to_32_bit_register a) 0x2d (not (a == 0) || ltb v 128) (single_byte a p)
            (omega (arith, to_32_bit_register_lem a p)) refl (ground arith) (λ bytes. refl),
        immediate-Encodes a v p h and_bits 4 (omega arith) refl (single_prefix x)
            (mod_digit_rm 0x20 x) 0x25 (ltb v 128 || not (a == 0)) (single_byte a p)
            (digit_lem 4 0x20 a refl p ∙ omega arith) refl refl (λ bytes. refl),
        immediate-Encodes a v p h or_bits 1 (omega arith) refl (single_prefix x) (mod_digit_rm 8 x)
            0x0d (ltb v 128 || not (a == 0)) (single_byte a p)
            (digit_lem 1 8 a refl p ∙ omega arith) refl refl (λ bytes. refl),
      )

  -- `add` of a constant below `2 ^ 31` decodes to itself for every register but `r8`, unless it is 128 and
  -- the register `rax`.
  pub emit_add-constant :
      (a ≡ 8 → ⊥)
      → ((a ≡ 0) × (v ≡ 128) → ⊥)
      → Encodes (emit_add (register_operand a) (immediate_operand v)) (alu_immediate add a v)
  unfolding emit_add below
  emit_add-constant k l =
      let x = register_operand a in
      immediate-Encodes a v p h add 0 (omega arith) refl (if leb 9 a then 0x49 else 0x48)
        (mod_digit_rm 0 x) 0x05 (not (a == 0) || leb v 128) (ground arith)
        (digit_lem 0 0 a refl p ∙ omega arith) refl (ground arith) (λ bytes. refl)

  -- `cmp` of a register other than `rax` and a constant below `2 ^ 31` decodes to the exclusive or of
  -- the two, not to their comparison.
  pub emit_cmp-constant :
      (a ≡ 0 → ⊥)
      → Encodes (emit_cmp (register_operand a) (immediate_operand v)) (alu_immediate xor_bits a v)
  unfolding emit_cmp below
  emit_cmp-constant k =
      let x = register_operand a in
      let other : (a == 0) ≡ false = ground arith in
      record {
        bytes = (72 + a / 8) ∷ 0x81 ∷ (192 + 48 + a % 8) ∷ dword v;
        emitted = λ code. rw other (
            first-Returns (get_64_bit_binary_op_prefix x (immediate_operand v)) (72 + a / 8) _
              (ground arith)
              (λ index. then-Returns (append 0x81) _ (append_byte 0x81 0x81 refl) (
                then-Returns (append (mod_digit_rm 0x30 x)) _
                  (append_byte _ _ (digit_lem 6 0x30 a refl p ∙ omega arith))
                  (last-Returns _ index (dword-Appends v))))
              code);
        decoded = dword_decoded a v p h xor_bits 6 (omega arith) refl;
      }
