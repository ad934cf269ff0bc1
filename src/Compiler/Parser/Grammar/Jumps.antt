-- ===== src/Compiler/Parser/Grammar/Jumps.antt =====
-- A jump is emitted without its distance, which is written when its target is known.
use lox_vm.Prelude.{
  ℕ, zero, suc, ◌+◌, ◌-◌, ◌/◌, ◌%◌, ◌^◌, ◌≤◌, ◌≡◌, refl, sym, ap, ap₂, ◌∙◌, true, List, [], ◌∷◌,
  ◌++◌, append_assoc, arith, ltb, if◌then◌else◌, length, set, take, length-append, length-set,
}
use lox_vm.Shared.Bytecode.{Bytecode, opcode}
use lox_vm.Compiler.Scanner.Tokens.{Token}
use lox_vm.Compiler.Chunk.{write_byte_at, Chunk}
use lox_vm.Compiler.Parser.State.{Result, ok, ◌>>=◌, Compiler, ◌then◌}
use lox_vm.Compiler.Parser.Emit.{current_chunk, emit_bytecode, emit_jump, patch_jump_here}
use lox_vm.Compiler.Parser.Grammar.{byte_of}
use lox_vm.Compiler.Parser.Grammar.Reading.{reading, Holding, Leads, Leads-bind, Leads-code}
use lox_vm.Compiler.Parser.Grammar.Writing.{emit_bytecode-Leads}

-- A jump whose distance is to come, and the place of the distance.
pub record Jumped (op : Bytecode) (compiler : Compiler) (m : Result (ℕ × Compiler))
    (tokens : List Token) (code constants : List ℕ) : Type 0 where
  pub last : Token
  pub chunk : Chunk
  pub ran : m ≡ ok (length code + 1, reading compiler last tokens chunk)
  pub holding : Holding chunk (code ++ byte_of op ∷ 0 ∷ 0 ∷ []) constants

length-take : (n : ℕ) (xs : List ℕ) → n ≤ length xs → length (take n xs) ≡ n
length-take zero xs h = refl
length-take (suc n) [] h = absurd (omega arith)
length-take (suc n) (x ∷ xs) h = ap suc (length-take n xs (omega (arith, h)))

pub in_use-length :
    {chunk : Chunk} {code constants : List ℕ}
    → Holding chunk code constants
    → chunk.in_use ≡ length code
in_use-length {chunk} h =
    sym (length-take chunk.in_use chunk.code (omega (arith, h.valid.used, h.valid.memory)))
    ∙ ap length h.code_is

module _ (compiler : Compiler) where
  pub emit_jump-Jumped :
      (op : Bytecode) (last : Token) (tokens : List Token) (chunk : Chunk) {code constants : List ℕ}
      → Holding chunk code constants
      → Jumped op compiler (emit_jump op (reading compiler last tokens chunk)) tokens code constants
  unfolding emit_jump
  emit_jump-Jumped op last tokens chunk {code} {constants} holding =
      let three : Leads
          ((emit_bytecode (opcode op) then emit_bytecode 0 then emit_bytecode 0)
            (reading compiler last tokens chunk))
          compiler tokens (code ++ byte_of op ∷ 0 ∷ 0 ∷ []) constants =
        Leads-code
          (append_assoc (code ++ byte_of op ∷ []) (0 ∷ []) (0 ∷ [])
            ∙ append_assoc code (byte_of op ∷ []) (0 ∷ 0 ∷ []))
          (Leads-bind (emit_bytecode 0)
            (Leads-bind (emit_bytecode 0)
              (emit_bytecode-Leads compiler last tokens chunk holding (opcode op))
              (λ l₁ k₁ h₁. emit_bytecode-Leads compiler l₁ tokens k₁ h₁ 0))
            (λ l₂ k₂ h₂. emit_bytecode-Leads compiler l₂ tokens k₂ h₂ 0)) in
      let place : three.chunk.in_use - 2 ≡ length code + 1 =
        omega (arith, in_use-length three.holding, length-append code (byte_of op ∷ 0 ∷ 0 ∷ [])) in
      record {
        last = three.last;
        chunk = three.chunk;
        ran =
            ap (λ m. m >>= λ c. ok ((current_chunk c).in_use - 2, c)) three.ran
            ∙ ap (λ k. ok (k, reading compiler three.last tokens three.chunk)) place;
        holding = three.holding;
      }

take-set : (n i : ℕ) (xs : List ℕ) (v : ℕ) → take n (set xs i v) ≡ set (take n xs) i v
take-set zero i xs v = refl
take-set (suc n) i [] v = refl
take-set (suc n) zero (x ∷ xs) v = refl
take-set (suc n) (suc i) (x ∷ xs) v = ap (◌∷◌ x) (take-set n i xs v)

set-two :
    (front : List ℕ) (x y a b : ℕ) (body : List ℕ)
    → set (set (front ++ x ∷ y ∷ body) (length front) a) (suc (length front)) b
      ≡ front ++ a ∷ b ∷ body
set-two [] x y a b body = refl
set-two (z ∷ front) x y a b body = ap (◌∷◌ z) (set-two front x y a b body)

-- A distance as the two bytes of an operand.
abbrev pub distance : ℕ → List ℕ
distance n = n % 256 ∷ n / 256 % 256 ∷ []

-- The distance of a jump that is patched is the length of what was emitted since.
pub patch_jump_here-Leads :
    (compiler : Compiler) (last : Token) (tokens : List Token) (chunk : Chunk) (index : ℕ)
    (front body : List ℕ) {constants : List ℕ}
    → Holding chunk (front ++ 0 ∷ 0 ∷ body) constants
    → index ≡ length front
    → Leads
        (patch_jump_here index (reading compiler last tokens chunk))
        compiler
        tokens
        (front ++ (distance (length body) ++ body))
        constants
unfolding patch_jump_here write_byte_at
patch_jump_here-Leads compiler last tokens chunk index front body {constants} holding p =
    let size : chunk.in_use ≡ length front + length body + 2 =
      omega (arith, in_use-length holding, length-append front (0 ∷ 0 ∷ body)) in
    let memory = holding.valid.memory in
    let used = holding.valid.used in
    let jump = (chunk.in_use + 2 ^ 32 - index - 2) % 2 ^ 16 in
    let a = jump % 256 in
    let b = jump / 2 ^ 8 % 256 in
    let low : a ≡ length body % 256 = omega (arith, p, size) in
    let high : b ≡ length body / 256 % 256 = omega (arith, p, size) in
    let inside : ltb index (length chunk.code) ≡ true = ground (arith, size, p, used, memory) in
    let inside_too : ltb (index + 1) (length (set chunk.code index a)) ≡ true =
      ground (arith, size, p, used, memory, length-set chunk.code index a) in
    let next : index + 1 ≡ suc (length front) = omega (arith, p) in
    let result : Chunk = record chunk { code = set (set chunk.code index a) (index + 1) b } in
    let patched : take chunk.in_use result.code ≡ front ++ (distance (length body) ++ body) =
      take-set chunk.in_use (index + 1) (set chunk.code index a) b
      ∙ ap (λ xs. set xs (index + 1) b) (take-set chunk.in_use index chunk.code a)
      ∙ ap (λ xs. set (set xs index a) (index + 1) b) holding.code_is
      ∙ ap₂ (λ i j. set (set (front ++ 0 ∷ 0 ∷ body) i a) j b) p next
      ∙ set-two front 0 0 a b body
      ∙ ap₂ (λ x y. front ++ x ∷ y ∷ body) low high in
    let size_kept : length (set (set chunk.code index a) (index + 1) b) ≡ chunk.capacity =
      length-set (set chunk.code index a) (index + 1) b ∙ length-set chunk.code index a ∙ memory in
    record {
      last = last;
      chunk = result;
      ran = rw (inside, inside_too) refl;
      holding = record {
        valid = record {
          memory = size_kept;
          used = used;
          grown = holding.valid.grown;
          covered = holding.valid.covered;
        };
        code_is = patched;
        constants_are = holding.constants_are;
      };
    }
