-- ===== src/Jit/X64/Memory.antt =====
-- The moves of opcodes.c between a register and memory, decoded.
use lox_vm.Prelude.{
  ℕ, ◌+◌, ◌*◌, ◌/◌, ◌%◌, ◌^◌, ◌<◌, ◌≡◌, refl, ap, ◌∙◌, List, [], ◌∷◌, ◌++◌, arith, ◌==◌,
  if◌then◌else◌, some, true, false, ◌&&◌, Bool-cases, inl, inr, append_assoc,
}
use lox_vm.Prelude.Int.{ℤ, pos, negsuc, to_u64}
use lox_vm.Jit.X64.Operands.{register_operand, register_disp_operand, to_32_bit_register}
use lox_vm.Jit.X64.Emit.{append, return, mod_reg_rm, emit_dword_immediate_value, is_byte_size}
use lox_vm.Jit.X64.Moves.{emit_mov, append_sib, store_prefix, load_prefix}
use lox_vm.Jit.X64.Decoder.{
  Instruction, load, store, Encodes, decode, memory_form, sign_extend_8, sign_extend_32,
}
use lox_vm.Jit.X64.Fields.{mod_reg_rm-byte, mod_reg_rm-dword, to_32_bit_register_lem}
use lox_vm.Jit.X64.Jumps.{IsInt, extend_int}
use lox_vm.Jit.X64.Registers.{rex}
use lox_vm.Jit.X64.Sequences.{
  Appends, append_byte, append_nothing, then-Returns, last-Returns, first-Returns, dword,
  dword-Appends, dword_value, if-Appends,
}

-- the byte for no index, which a base in the place of `rsp` asks for
abbrev sib : ℕ → List ℕ
sib base = if base % 8 == 4 then 0x24 ∷ [] else []

abbrev displacement_bytes : ℤ → List ℕ
displacement_bytes d = if is_byte_size d then to_u64 d % 256 ∷ [] else dword (to_u64 d)

abbrev displacement_mode : ℤ → ℕ
displacement_mode d = if is_byte_size d then 0x40 else 0x80

extend_byte : (d : ℤ) → is_byte_size d ≡ true → sign_extend_8 (to_u64 d % 256) ≡ to_u64 d
extend_byte (pos n) h = ground arith
extend_byte (negsuc n) h = ground arith

sib-Appends : (base : ℕ) → base < 16 → Appends (append_sib base) (sib base)
sib-Appends base p = rw (to_32_bit_register_lem base p) (
    if-Appends (base % 8 == 4) (append 0x24) (return 0) _ _ (λ _. append_byte 0x24 0x24 refl)
      (λ _. append_nothing 0))

memory_modrm :
    (d : ℤ) (reg base : ℕ)
    → reg < 16
    → base < 16
    → mod_reg_rm (displacement_mode d) reg base % 256 ≡ displacement_mode d + reg % 8 * 8 + base % 8
memory_modrm d reg base p q = elim (Bool-cases (is_byte_size d)) [
  | inl e ↦ rw e (omega (arith, mod_reg_rm-byte reg base p q))
  | inr e ↦ rw e (omega (arith, mod_reg_rm-dword reg base p q))
]

-- The fields of a ModRM byte in one of the two modes.
module _ (f : ℕ → ℕ → ℕ → Instruction) (reg base v : ℕ) (p : reg < 16) (q : base < 16) where
  back_byte :
      (rest : List ℕ)
      → memory_form f
          (8 * (reg / 8))
          (8 * (base / 8))
          ((64 + reg % 8 * 8 + base % 8) ∷ (sib base ++ ((v % 256) ∷ rest)))
        ≡ some (f reg base (sign_extend_8 (v % 256)), rest)
  back_byte rest = ground arith

  back_dword :
      (rest : List ℕ)
      → memory_form f
          (8 * (reg / 8))
          (8 * (base / 8))
          ((128 + reg % 8 * 8 + base % 8) ∷ (sib base ++ (dword v ++ rest)))
        ≡ some (f reg base (sign_extend_32 (v % 2 ^ 32)), rest)
  back_dword rest = rw (← dword_value v) (ground arith)

module _ (f : ℕ → ℕ → ℕ → Instruction) (d : ℤ) (h : IsInt d) (reg base : ℕ) (p : reg < 16)
    (q : base < 16) where
  memory_back :
      (rest : List ℕ)
      → memory_form f (8 * (reg / 8)) (8 * (base / 8)) (
          (displacement_mode d + reg % 8 * 8 + base % 8)
          ∷ (sib base ++ (displacement_bytes d ++ rest)))
        ≡ some (f reg base (to_u64 d), rest)
  memory_back rest = elim (Bool-cases (is_byte_size d)) [
    | inl e ↦ rw e (
        back_byte f reg base (to_u64 d) p q rest
        ∙ ap (λ x. some (f reg base x, rest)) (extend_byte d e))
    | inr e ↦ rw e (
        back_dword f reg base (to_u64 d) p q rest
        ∙ ap (λ x. some (f reg base x, rest)) (extend_int d h))
  ]

zero-Appends :
    (d : ℤ) (a : ℕ)
    → Appends
        (if to_32_bit_register a == 5 && displacement_mode d == 0 then append 0 else return 0)
        []
zero-Appends d a = elim (Bool-cases (to_32_bit_register a == 5 && displacement_mode d == 0)) [
  | inl e ↦ absurd (ground arith)
  | inr e ↦ rw e (append_nothing 0)
]

store-Appends :
    (d : ℤ)
    → Appends
        (if displacement_mode d == 0x40
          then append (to_u64 d)
          else (if displacement_mode d == 0x80
              then emit_dword_immediate_value (to_u64 d)
              else return 0))
        (displacement_bytes d)
store-Appends d = elim (Bool-cases (is_byte_size d)) [
  | inl e ↦ rw e (append_byte (to_u64 d) (to_u64 d % 256) refl)
  | inr e ↦ rw e (dword-Appends (to_u64 d))
]

load-Appends :
    (d : ℤ)
    → Appends
        (if is_byte_size d then append (to_u64 d) else emit_dword_immediate_value (to_u64 d))
        (displacement_bytes d)
load-Appends d = elim (Bool-cases (is_byte_size d)) [
  | inl e ↦ rw e (append_byte (to_u64 d) (to_u64 d % 256) refl)
  | inr e ↦ rw e (dword-Appends (to_u64 d))
]

module _ (base reg : ℕ) (p : base < 16) (q : reg < 16) where
  rex_w : (rex base reg / 8 == 9) ≡ true
  rex_w = ground arith

  rex_r : rex base reg / 4 % 2 ≡ reg / 8
  rex_r = omega arith

  rex_b : rex base reg % 2 ≡ base / 8
  rex_b = omega arith

  no_register : (d : ℤ) → ((displacement_mode d + reg % 8 * 8 + base % 8) / 64 == 3) ≡ false
  no_register d = ground arith

  abbrev memory_bytes : ℕ → ℤ → List ℕ
  memory_bytes op d =
      rex base reg
      ∷ op
      ∷ (displacement_mode d + reg % 8 * 8 + base % 8)
      ∷ (sib base ++ displacement_bytes d)

  store_decoded :
      (d : ℤ)
      → IsInt d
      → (rest : List ℕ)
      → decode (memory_bytes 0x89 d ++ rest) ≡ some (store base (to_u64 d) reg, rest)
  store_decoded d h rest =
      rw (rex_w, rex_r, rex_b, no_register d, append_assoc (sib base) (displacement_bytes d) rest)
        (memory_back (λ reg base d. store base d reg) d h reg base q p rest)

  load_decoded :
      (d : ℤ)
      → IsInt d
      → (rest : List ℕ)
      → decode (memory_bytes 0x8B d ++ rest) ≡ some (load reg base (to_u64 d), rest)
  load_decoded d h rest =
      rw (rex_w, rex_r, rex_b, append_assoc (sib base) (displacement_bytes d) rest)
        (memory_back load d h reg base q p rest)

  -- `mov` between a register and the memory at a base register and an `int`: the bytes decode to the
  -- load or the store of these operands for each of the sixteen registers, also where the base takes
  -- the place of `rsp` and needs one byte more, and for a short and a long displacement alike.
  pub memory_instructions :
      (d : ℤ)
      → IsInt d
      → Encodes
          (emit_mov (register_disp_operand base d) (register_operand reg))
          (store base (to_u64 d) reg)
        × Encodes
            (emit_mov (register_operand reg) (register_disp_operand base d))
            (load reg base (to_u64 d))
  unfolding emit_mov
  memory_instructions d h = (
    record {
      bytes = memory_bytes 0x89 d;
      emitted = first-Returns (store_prefix base reg) (rex base reg) _ (ground arith) λ index.
          then-Returns (append 0x89) _ (append_byte 0x89 0x89 refl) (
            then-Returns (append (mod_reg_rm (displacement_mode d) reg base)) _
              (append_byte _ _ (memory_modrm d reg base q p))
              (then-Returns (append_sib base) _ (sib-Appends base p)
                (then-Returns _ _ (zero-Appends d base) (last-Returns _ index (store-Appends d)))));
      decoded = store_decoded d h;
    },
    record {
      bytes = memory_bytes 0x8B d;
      emitted = first-Returns (load_prefix reg base) (rex base reg) _ (ground arith) λ index.
          then-Returns (append 0x8B) _ (append_byte 0x8B 0x8B refl) (
            then-Returns (append (mod_reg_rm (displacement_mode d) reg base)) _
              (append_byte _ _ (memory_modrm d reg base q p))
              (then-Returns (append_sib base) _ (sib-Appends base p)
                (last-Returns _ index (load-Appends d))));
      decoded = load_decoded d h;
    },
  )
