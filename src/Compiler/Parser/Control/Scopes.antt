-- ===== src/Compiler/Parser/Control/Scopes.antt =====
-- The scope of a block, and the jumps of bytecode_compiler.c around a branch.
use lox_vm.Prelude.{
  ℕ, ◌+◌, ◌-◌, ◌/◌, ◌%◌, ◌^◌, ◌≤◌, ◌≡◌, refl, ap, ap₂, ◌∙◌, Bool, true, false, List, [], ◌∷◌, ◌++◌,
  append_assoc, arith, ltb, leb, length, length-append,
}
use lox_vm.Shared.Bytecode.{Bytecode, op_loop, opcode}
use lox_vm.Compiler.Scanner.Tokens.{Token}
use lox_vm.Compiler.Chunk.{Chunk}
use lox_vm.Compiler.Parser.State.{Result, ◌>>=◌, Local, Compiler}
use lox_vm.Compiler.Parser.Emit.{emit_loop}
use lox_vm.Compiler.Parser.Scopes.{begin_scope, end_scope, drop_deeper}
use lox_vm.Compiler.Parser.Grammar.{byte_of}
use lox_vm.Compiler.Parser.Grammar.Reading.{reading, Holding, Leads, Leads-bind, Leads-code}
use lox_vm.Compiler.Parser.Grammar.Writing.{emit_bytecode-Leads, emit_u16-Leads}
use lox_vm.Compiler.Parser.Grammar.Atoms.{start}
use lox_vm.Compiler.Parser.Grammar.Jumps.{Jumped, in_use-length}
use lox_vm.Compiler.Parser.Control.{jump_over}

-- No assignment is being compiled, and no local variable is deeper than the scope.
abbrev pub shallow : ℕ → List Local → Bool
shallow depth [] = true
shallow depth (local ∷ locals) = leb local.depth depth

pub record Quiet (compiler : Compiler) : Type 0 where
  pub no_set : compiler.compiling_set_operation ≡ false
  pub no_array_set : compiler.compiling_set_array_element_operation ≡ false
  pub in_scope : shallow compiler.local_depth compiler.locals ≡ true

pub Quiet-begin_scope : {compiler : Compiler} → Quiet compiler → Quiet (begin_scope compiler)
unfolding begin_scope
Quiet-begin_scope {compiler} q = record {
  no_set = q.no_set;
  no_array_set = q.no_array_set;
  in_scope = deeper compiler.locals q.in_scope;
}
  where
    deeper :
        (locals : List Local)
        → shallow compiler.local_depth locals ≡ true
        → shallow (compiler.local_depth + 1) locals ≡ true
    deeper [] h = refl
    deeper (l ∷ ls) h = ground (arith, h)

drop_deeper-shallow :
    (depth : ℕ) (locals : List Local)
    → shallow depth locals ≡ true
    → drop_deeper depth locals ≡ locals
unfolding drop_deeper
drop_deeper-shallow depth [] h = refl
drop_deeper-shallow depth (l ∷ ls) h =
    let kept : ltb depth l.depth ≡ false = ground (arith, h) in rw kept refl

-- A scope without declarations leaves the compiler as it was.
pub end_scope-begin_scope :
    (compiler : Compiler) (last : Token) (tokens : List Token) (chunk : Chunk)
    → Quiet compiler
    → end_scope (reading (begin_scope compiler) last tokens chunk)
      ≡ reading compiler last tokens chunk
unfolding end_scope begin_scope
end_scope-begin_scope compiler last tokens chunk q =
    let depth : compiler.local_depth + 1 - 1 ≡ compiler.local_depth = omega arith in
    let kept =
      ap (λ d. drop_deeper d compiler.locals) depth
      ∙ drop_deeper-shallow compiler.local_depth compiler.locals q.in_scope in
    ap₂ (λ d ls. record (reading compiler last tokens chunk) { local_depth = d; locals = ls }) depth
      kept

pub Holding-code :
    {chunk : Chunk} {code code' constants : List ℕ}
    → code ≡ code'
    → Holding chunk code constants
    → Holding chunk code' constants
Holding-code p h = record {
  valid = h.valid;
  code_is = h.code_is ∙ p;
  constants_are = h.constants_are;
}

pub Jumped-bind :
    {op : Bytecode} {m : Result (ℕ × Compiler)} {compiler : Compiler} {tokens tokens' : List Token}
    {code constants code' constants' : List ℕ} (f : ℕ × Compiler → Result Compiler)
    → Jumped op compiler m tokens code constants
    → ((last : Token) (chunk : Chunk)
        → Holding chunk (code ++ byte_of op ∷ 0 ∷ 0 ∷ []) constants
        → Leads
            (f (length code + 1, reading compiler last tokens chunk))
            compiler
            tokens'
            code'
            constants')
    → Leads (m >>= f) compiler tokens' code' constants'
Jumped-bind f j next =
    let second = next j.last j.chunk j.holding in
    record {
      last = second.last;
      chunk = second.chunk;
      ran = ap (λ r. r >>= f) j.ran ∙ second.ran;
      holding = second.holding;
    }

-- the two lists of a branch, around the place of its distance
pub front_of :
    (c b : List ℕ) (op op' : ℕ)
    → ((c ++ op ∷ 0 ∷ 0 ∷ []) ++ b) ++ op' ∷ 0 ∷ 0 ∷ []
      ≡ (c ++ op ∷ []) ++ 0 ∷ 0 ∷ (b ++ op' ∷ 0 ∷ 0 ∷ [])
front_of c b op op' = simp append_assoc

-- A jump back to a place of the code, over the code from there on and the jump itself.
pub emit_loop-Leads :
    (compiler : Compiler) (last : Token) (tokens : List Token) (chunk : Chunk) (start back : ℕ)
    {code constants : List ℕ}
    → Holding chunk code constants
    → start + back ≡ length code + 3
    → start ≤ length code
    → Leads
        (emit_loop start (reading compiler last tokens chunk))
        compiler
        tokens
        (code ++ jump_over op_loop back)
        constants
unfolding emit_loop
emit_loop-Leads compiler last tokens chunk start back {code} {constants} holding p q =
    Leads-bind {code = code ++ byte_of op_loop ∷ []} {constants = constants} _
      (emit_bytecode-Leads compiler last tokens chunk holding (opcode op_loop))
      (λ l k h.
        let n = (k.in_use + 2 ^ 32 - start + 2) % 2 ^ 16 in
        let size = in_use-length h in
        let longer = length-append code (byte_of op_loop ∷ []) in
        let low : n % 256 ≡ back % 256 = omega (arith, p, q, size, longer) in
        let high : n / 2 ^ 8 % 256 ≡ back / 256 % 256 = omega (arith, p, q, size, longer) in
        Leads-code
          (append_assoc code (byte_of op_loop ∷ []) (n % 256 ∷ n / 2 ^ 8 % 256 ∷ [])
            ∙ ap₂ (λ x y. code ++ byte_of op_loop ∷ x ∷ y ∷ []) low high)
          (emit_u16-Leads compiler l tokens k h n))

pub looped :
    (c b : List ℕ) (op op' x y : ℕ)
    → ((c ++ op ∷ 0 ∷ 0 ∷ []) ++ b) ++ op' ∷ x ∷ y ∷ []
      ≡ (c ++ op ∷ []) ++ 0 ∷ 0 ∷ (b ++ op' ∷ x ∷ y ∷ [])
looped c b op op' x y = simp append_assoc
