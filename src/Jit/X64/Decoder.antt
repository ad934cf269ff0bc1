-- ===== src/Jit/X64/Decoder.antt =====
-- A decoder for the part of the x64 instruction set that opcodes.c emits, after the encoding that
-- the processor's manual gives. It is the measure of the encoders; it models no code.
use lox_vm.Prelude.{
  ℕ, ◌+◌, ◌-◌, ◌*◌, ◌/◌, ◌%◌, ◌^◌, List, [], ◌∷◌, ◌++◌, Option, none, some, ◌&&◌, ltb, ◌==◌,
  if◌then◌else◌, ◌>>=◌, ◌≡◌, length,
}
use lox_vm.Jit.X64.Emit.{Emit, Code}

pub data Alu : Type 0 where
  add or_bits and_bits sub xor_bits cmp : Alu

-- A register is a number below 16, a constant or a displacement its pattern of 64 bits.
pub data Instruction : Type 0 where
  alu : Alu → ℕ → ℕ → Instruction
  alu_immediate : Alu → ℕ → ℕ → Instruction
  mov : ℕ → ℕ → Instruction
  mov_immediate : ℕ → ℕ → Instruction
  load : ℕ → ℕ → ℕ → Instruction
  store : ℕ → ℕ → ℕ → Instruction
  imul : ℕ → ℕ → Instruction
  imul_immediate : ℕ → ℕ → ℕ → Instruction
  inc dec neg idiv push pop call movzx_al : ℕ → Instruction
  setl_al setg_al sete_al ret nop : Instruction
  jmp jne int : ℕ → Instruction

abbrev pub Decoding : Type 0
Decoding = Option (Instruction × List ℕ)

-- a constant of 8 or 32 bits, extended by its sign
abbrev pub sign_extend_8 : ℕ → ℕ
sign_extend_8 v = if ltb v 128 then v else v + (2 ^ 64 - 2 ^ 8)

abbrev pub sign_extend_32 : ℕ → ℕ
sign_extend_32 v = if ltb v (2 ^ 31) then v else v + (2 ^ 64 - 2 ^ 32)

abbrev pub read_dword : List ℕ → Option (ℕ × List ℕ)
read_dword (a ∷ b ∷ c ∷ d ∷ rest) = some (a + 256 * b + 65536 * c + 16777216 * d, rest)
read_dword _ = none

abbrev pub read_byte : List ℕ → Option (ℕ × List ℕ)
read_byte [] = none
read_byte (a ∷ rest) = some (a, rest)

-- the fields of a ModRM byte
abbrev pub mode : ℕ → ℕ
mode m = m / 64

abbrev pub reg_field : ℕ → ℕ
reg_field m = m / 8 % 8

abbrev pub rm_field : ℕ → ℕ
rm_field m = m % 8

abbrev pub alu_digit : ℕ → Option Alu
alu_digit d =
    if d == 0
    then some add
    else if d == 1
    then some or_bits
    else if d == 4
    then some and_bits
    else if d == 5
    then some sub
    else if d == 6
    then some xor_bits
    else if d == 7
    then some cmp
    else none

-- `r` and `b` are what the prefix adds to the two fields.
abbrev pub register_form : (ℕ → ℕ → Instruction) → ℕ → ℕ → List ℕ → Decoding
register_form f r b [] = none
register_form f r b (m ∷ rest) =
    if mode m == 3 then some (f (rm_field m + b) (reg_field m + r), rest) else none

-- `[base + disp]`, with the byte for no index where the base's field is 4
abbrev pub displacement : ℕ → List ℕ → Option (ℕ × List ℕ)
displacement m bytes =
    if mode m == 1
    then (read_byte bytes >>= λ d. some (sign_extend_8 d.0, d.1))
    else if mode m == 2
    then (read_dword bytes >>= λ d. some (sign_extend_32 d.0, d.1))
    else none

abbrev pub memory_form : (ℕ → ℕ → ℕ → Instruction) → ℕ → ℕ → List ℕ → Decoding
memory_form f r b [] = none
memory_form f r b (m ∷ rest) =
    (if rm_field m == 4
      then (read_byte rest >>= λ s. if s.0 == 0x24 then some s.1 else none)
      else some rest)
    >>= λ bytes. displacement m bytes >>= λ d. some (f (reg_field m + r) (rm_field m + b) d.0, d.1)

abbrev pub alu_with : Alu → ℕ → Option (ℕ × List ℕ) → Decoding
alu_with op r constant = constant >>= λ v. some (alu_immediate op r v.0, v.1)

abbrev pub immediate_form : (List ℕ → Option (ℕ × List ℕ)) → ℕ → List ℕ → Decoding
immediate_form read b [] = none
immediate_form read b (m ∷ rest) =
    if mode m == 3
    then (alu_digit (reg_field m) >>= λ op. alu_with op (rm_field m + b) (read rest))
    else none

abbrev pub byte_constant : List ℕ → Option (ℕ × List ℕ)
byte_constant bytes = read_byte bytes >>= λ v. some (sign_extend_8 v.0, v.1)

abbrev pub dword_constant : List ℕ → Option (ℕ × List ℕ)
dword_constant bytes = read_dword bytes >>= λ v. some (sign_extend_32 v.0, v.1)

abbrev pub rax_form : Alu → List ℕ → Decoding
rax_form op bytes = alu_with op 0 (dword_constant bytes)

-- an instruction on one register, chosen by the field `reg`
abbrev pub group : (ℕ → Option (ℕ → Instruction)) → ℕ → List ℕ → Decoding
group choose b [] = none
group choose b (m ∷ rest) =
    if mode m == 3 then (choose (reg_field m) >>= λ f. some (f (rm_field m + b), rest)) else none

abbrev pub group_f7 : ℕ → Option (ℕ → Instruction)
group_f7 d = if d == 3 then some neg else if d == 7 then some idiv else none

abbrev pub group_ff : ℕ → Option (ℕ → Instruction)
group_ff d =
    if d == 0 then some inc else if d == 1 then some dec else if d == 2 then some call else none

-- without the prefix the operands are 32 bits wide, but that of a call
abbrev pub narrow_group_ff : ℕ → Option (ℕ → Instruction)
narrow_group_ff d = if d == 2 then some call else none

abbrev pub mov_constant : ℕ → List ℕ → Decoding
mov_constant b [] = none
mov_constant b (m ∷ rest) =
    if mode m == 3 && reg_field m == 0
    then (dword_constant rest >>= λ v. some (mov_immediate (rm_field m + b) v.0, v.1))
    else none

abbrev pub mov_qword : ℕ → List ℕ → Decoding
mov_qword r bytes = read_dword bytes >>= λ low.
    read_dword low.1 >>= λ high. some (mov_immediate r (low.0 + 2 ^ 32 * high.0), high.1)

abbrev pub imul_constant : ℕ → ℕ → List ℕ → Decoding
imul_constant r b [] = none
imul_constant r b (m ∷ rest) =
    if mode m == 3
    then (dword_constant rest >>= λ v.
        some (imul_immediate (reg_field m + r) (rm_field m + b) v.0, v.1))
    else none

abbrev pub store_form : ℕ → ℕ → List ℕ → Decoding
store_form r b [] = none
store_form r b (m ∷ rest) =
    if mode m == 3
    then register_form mov r b (m ∷ rest)
    else memory_form (λ reg base d. store base d reg) r b (m ∷ rest)

-- `movzx` from `al`
abbrev pub from_al : ℕ → ℕ → List ℕ → Decoding
from_al r b [] = none
from_al r b (m ∷ rest) =
    if mode m == 3 && rm_field m + b == 0 then some (movzx_al (reg_field m + r), rest) else none

-- after `0F`, with 64-bit operands
abbrev pub two_byte : ℕ → ℕ → List ℕ → Decoding
two_byte r b [] = none
two_byte r b (op ∷ rest) =
    if op == 0xAF
    then register_form (λ rm reg. imul reg rm) r b rest
    else if op == 0xB6
    then from_al r b rest
    else none

-- after a prefix that makes the operands 64 bits wide
abbrev pub wide : ℕ → ℕ → List ℕ → Decoding
wide r b [] = none
wide r b (op ∷ rest) =
    if op == 0x01
    then register_form (alu add) r b rest
    else if op == 0x09
    then register_form (alu or_bits) r b rest
    else if op == 0x21
    then register_form (alu and_bits) r b rest
    else if op == 0x29
    then register_form (alu sub) r b rest
    else if op == 0x39
    then register_form (alu cmp) r b rest
    else if op == 0x89
    then store_form r b rest
    else if op == 0x8B
    then memory_form load r b rest
    else if op == 0x05
    then rax_form add rest
    else if op == 0x0D
    then rax_form or_bits rest
    else if op == 0x25
    then rax_form and_bits rest
    else if op == 0x2D
    then rax_form sub rest
    else if op == 0x3D
    then rax_form cmp rest
    else if op == 0x83
    then immediate_form byte_constant b rest
    else if op == 0x81
    then immediate_form dword_constant b rest
    else if op == 0xC7
    then mov_constant b rest
    else if op == 0x69
    then imul_constant r b rest
    else if op == 0xF7
    then group group_f7 b rest
    else if op == 0xFF
    then group group_ff b rest
    else if op == 0x0F
    then two_byte r b rest
    else if op / 8 == 0xB8 / 8
    then mov_qword (op % 8 + b) rest
    else none

-- after `0F`, with no prefix
abbrev pub set_al : Instruction → List ℕ → Decoding
set_al i [] = none
set_al i (m ∷ rest) = if m == 0xC0 then some (i, rest) else none

abbrev pub narrow_two_byte : List ℕ → Decoding
narrow_two_byte [] = none
narrow_two_byte (op ∷ rest) =
    if op == 0x85
    then (dword_constant rest >>= λ v. some (jne v.0, v.1))
    else if op == 0x94
    then set_al sete_al rest
    else if op == 0x9C
    then set_al setl_al rest
    else if op == 0x9F
    then set_al setg_al rest
    else none

-- with no prefix, or one that only names an upper register
abbrev pub narrow : ℕ → List ℕ → Decoding
narrow b [] = none
narrow b (op ∷ rest) =
    if op / 8 == 0x50 / 8
    then some (push (op % 8 + b), rest)
    else if op / 8 == 0x58 / 8
    then some (pop (op % 8 + b), rest)
    else if op == 0xFF
    then group narrow_group_ff b rest
    else if op == 0xC3
    then some (ret, rest)
    else if op == 0x90
    then some (nop, rest)
    else if op == 0xCD
    then (read_byte rest >>= λ v. some (int v.0, v.1))
    else if op == 0x0F
    then narrow_two_byte rest
    else if op == 0xE9
    then (dword_constant rest >>= λ v. some (jmp v.0, v.1))
    else none

-- The bits of a prefix are W, R, X and B, from bit 3 down.
abbrev pub decode : List ℕ → Decoding
decode [] = none
decode (p ∷ rest) =
    if p / 8 == 0x48 / 8
    then wide (8 * (p / 4 % 2)) (8 * (p % 2)) rest
    else if p == 0x41
    then narrow 8 rest
    else narrow 0 (p ∷ rest)

-- The encoder appends bytes that decode to the instruction, whatever follows them, and returns the
-- index at which they begin.
pub record Encodes (m : Emit ℕ) (i : Instruction) : Type 0 where
  pub bytes : List ℕ
  pub emitted : (code : Code) → m code ≡ some (length code % 2 ^ 16, code ++ bytes)
  pub decoded : (rest : List ℕ) → decode (bytes ++ rest) ≡ some (i, rest)
