-- ===== src/Jit/X64/Jumps.antt =====
-- The jumps of opcodes.c, the interrupt and `movzx`, decoded.
use lox_vm.Prelude.{
  ℕ, ◌+◌, ◌*◌, ◌/◌, ◌%◌, ◌^◌, ◌<◌, ◌≡◌, refl, ap, ◌∙◌, List, [], ◌∷◌, ◌++◌, arith, leb,
  if◌then◌else◌, some,
}
use lox_vm.Prelude.Int.{ℤ, pos, negsuc, to_u64}
use lox_vm.Jit.X64.Singles.{plain_instructions}
use lox_vm.Jit.X64.Operands.{register_operand}
use lox_vm.Jit.X64.Emit.{append, mod_reg_rm, emit_dword_immediate_value}
use lox_vm.Jit.X64.Arithmetic.{emit_setl_al, emit_setg_al, emit_sete_al, emit_al_movzx}
use lox_vm.Jit.X64.Control.{emit_ret, emit_nop, emit_int, emit_near_jne, emit_near_jmp}
use lox_vm.Jit.X64.Decoder.{
  setl_al, setg_al, sete_al, ret, nop, movzx_al, jmp, jne, int, Encodes, sign_extend_32,
  dword_constant,
}
use lox_vm.Jit.X64.Fields.{mod_reg_rm-register}
use lox_vm.Jit.X64.Registers.{modrm}
use lox_vm.Jit.X64.Sequences.{
  append_byte, return_nothing, then-Returns, first-Returns, dword, dword-Appends, dword_value,
}

-- the values of a C `int`
abbrev pub IsInt : ℤ → Type 0
IsInt (pos n) = n < 2 ^ 31
IsInt (negsuc n) = n < 2 ^ 31

pub extend_int : (d : ℤ) → IsInt d → sign_extend_32 (to_u64 d % 2 ^ 32) ≡ to_u64 d
extend_int (pos n) h = ground arith
extend_int (negsuc n) h = ground arith

-- four bytes that are read back
pub read_dword_back :
    (v : ℕ) (rest : List ℕ)
    → dword_constant (dword v ++ rest) ≡ some (sign_extend_32 (v % 2 ^ 32), rest)
read_dword_back v rest = ap (λ x. some (sign_extend_32 x, rest)) (dword_value v)

-- A jump carries its offset: the four bytes are the `int`, extended by its sign.
pub jump_instructions :
    (offset : ℤ)
    → IsInt offset
    → Encodes (emit_near_jmp offset) (jmp (to_u64 offset))
      × Encodes (emit_near_jne offset) (jne (to_u64 offset))
unfolding emit_near_jmp emit_near_jne
jump_instructions offset h =
    let v = to_u64 offset in
    let same = extend_int offset h in
    (
      record {
        bytes = 0xE9 ∷ dword v;
        emitted = first-Returns 0xE9 0xE9 _ refl λ index.
            then-Returns (emit_dword_immediate_value v) _ (dword-Appends v) (return_nothing index);
        decoded = λ rest. ap (λ x. some (jmp x, rest)) (ap sign_extend_32 (dword_value v) ∙ same);
      },
      record {
        bytes = 0x0F ∷ 0x85 ∷ dword v;
        emitted = first-Returns 0x0F 0x0F _ refl λ index.
            then-Returns (append 0x85) _ (append_byte 0x85 0x85 refl) (
              then-Returns (emit_dword_immediate_value v) _ (dword-Appends v)
                (return_nothing index));
        decoded = λ rest. ap (λ x. some (jne x, rest)) (ap sign_extend_32 (dword_value v) ∙ same);
      },
    )

-- An interrupt carries its number, if it is a byte; `movzx` names the register it fills.
pub byte_instructions :
    (a n : ℕ)
    → a < 16
    → n < 256
    → Encodes (emit_al_movzx (register_operand a)) (movzx_al a) × Encodes (emit_int (pos n)) (int n)
unfolding emit_al_movzx emit_int
byte_instructions a n p q = (
  record {
    bytes = (72 + 4 * (a / 8)) ∷ 0x0F ∷ 0xB6 ∷ modrm a 0 ∷ [];
    emitted = first-Returns (if leb 8 a then 0x4C else 0x48) _ _ (ground arith) λ index.
        then-Returns (append 0x0F) _ (append_byte 0x0F 0x0F refl) (
          then-Returns (append 0xB6) _ (append_byte 0xB6 0xB6 refl) (
            then-Returns (append (mod_reg_rm 0xC0 a 0)) _
              (append_byte _ (modrm a 0) (omega (arith, mod_reg_rm-register a 0 p (omega arith))))
              (return_nothing index)));
    decoded = λ rest. ground arith;
  },
  record {
    bytes = 0xCD ∷ n ∷ [];
    emitted = first-Returns 0xCD 0xCD _ refl λ index.
        then-Returns (append (n % 2 ^ 64)) _ (append_byte _ n (omega arith)) (return_nothing index);
    decoded = λ rest. ground arith;
  },
)

-- `movzx` from `al`, and from no other byte register, to any register, an interrupt with a number below 256,
-- what the comparisons leave in `al`, and the instructions with no operand decode to themselves.
pub small_instructions :
    (a n : ℕ)
    → a < 16
    → n < 256
    → Encodes (emit_al_movzx (register_operand a)) (movzx_al a)
      × Encodes (emit_int (pos n)) (int n)
      × Encodes emit_setl_al setl_al
      × Encodes emit_setg_al setg_al
      × Encodes emit_sete_al sete_al
      × Encodes emit_ret ret
      × Encodes emit_nop nop
small_instructions a n p q =
    let b = byte_instructions a n p q in
    let s = plain_instructions in (b.0, b.1, s.0, s.1, s.2, s.3, s.4)
