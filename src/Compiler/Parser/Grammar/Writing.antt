-- ===== src/Compiler/Parser/Grammar/Writing.antt =====
-- What the functions of bytecode_compiler.c that write code leave behind.
use lox_vm.Prelude.{
  ℕ, ◌-◌, ◌/◌, ◌%◌, ◌^◌, ◌<◌, ◌≡◌, refl, sym, ap, ◌∙◌, inl, inr, true, none, some, List, [], ◌∷◌,
  ◌++◌, append_assoc, append-nil, arith, ltb, Bool-cases, length, length-append,
}
use lox_vm.Shared.Bytecode.{Bytecode, opcode}
use lox_vm.Compiler.Scanner.Tokens.{Token}
use lox_vm.Compiler.Chunk.{Chunk, add_constant_to_chunk}
use lox_vm.Compiler.Parser.State.{Result, ok, ◌>>=◌, Compiler}
use lox_vm.Compiler.Parser.Tokens.{advance_compiler}
use lox_vm.Compiler.Parser.Emit.{emit_bytecode, emit_bytecodes, emit_u16, add_constant}
use lox_vm.Compiler.Parser.Expressions.{emit_all}
use lox_vm.Compiler.Parser.Grammar.{Generated, byte_of, bytes_of_all, with_constant}
use lox_vm.Compiler.Chunk.Writes.{write_chunk-Writes, write_u16_chunk-Writes}
use lox_vm.Compiler.Parser.Grammar.Reading.{
  reading, readable, advance_compiler-reading, Holding, Leads-bind, Leads-path, Leads-code,
  Leads-constants, Leads,
}

module _ (compiler : Compiler) (last : Token) (tokens : List Token) (chunk : Chunk)
    {code constants : List ℕ} (holding : Holding chunk code constants) where
  pub emit_bytecode-Leads :
      (byte : ℕ)
      → Leads
          (emit_bytecode byte (reading compiler last tokens chunk))
          compiler
          tokens
          (code ++ byte % 256 ∷ [])
          constants
  unfolding emit_bytecode
  emit_bytecode-Leads byte =
      let w = write_chunk-Writes chunk byte holding.valid in
      record {
        last = last;
        chunk = w.result;
        ran = rw w.ran refl;
        holding = record {
          valid = w.valid;
          code_is = w.appended ∙ ap (λ xs. xs ++ byte % 256 ∷ []) holding.code_is;
          constants_are = w.constants ∙ holding.constants_are;
        };
      }

  pub emit_u16-Leads :
      (value : ℕ)
      → Leads
          (emit_u16 value (reading compiler last tokens chunk))
          compiler
          tokens
          (code ++ value % 256 ∷ value / 2 ^ 8 % 256 ∷ [])
          constants
  unfolding emit_u16
  emit_u16-Leads value =
      let w = write_u16_chunk-Writes chunk value holding.valid in
      record {
        last = last;
        chunk = w.result;
        ran = rw w.ran refl;
        holding = record {
          valid = w.valid;
          code_is =
              w.appended ∙ ap (λ xs. xs ++ value % 256 ∷ value / 2 ^ 8 % 256 ∷ []) holding.code_is;
          constants_are = w.constants ∙ holding.constants_are;
        };
      }

  pub advance_compiler-Leads :
      (t : Token)
      → readable tokens ≡ true
      → Leads
          (advance_compiler (reading compiler last (t ∷ tokens) chunk))
          compiler
          tokens
          code
          constants
  advance_compiler-Leads t h = record {
    last = t;
    chunk = chunk;
    ran = advance_compiler-reading compiler last t tokens chunk h;
    holding = holding;
  }

pub emit_bytecodes-Leads :
    (compiler : Compiler) (last : Token) (tokens : List Token) (chunk : Chunk)
    {code constants : List ℕ} (holding : Holding chunk code constants) (a b : ℕ)
    → Leads
        (emit_bytecodes a b (reading compiler last tokens chunk))
        compiler
        tokens
        (code ++ a % 256 ∷ b % 256 ∷ [])
        constants
unfolding emit_bytecodes
emit_bytecodes-Leads compiler last tokens chunk {code = code} holding a b =
    Leads-code (append_assoc code (a % 256 ∷ []) (b % 256 ∷ [])) (
      Leads-bind _ (emit_bytecode-Leads compiler last tokens chunk holding a)
        (λ last₁ chunk₁ h₁. emit_bytecode-Leads compiler last₁ tokens chunk₁ h₁ b))

pub emit_all-Leads :
    (ops : List Bytecode) (compiler : Compiler) (last : Token) (tokens : List Token) (chunk : Chunk)
    {code constants : List ℕ} (holding : Holding chunk code constants)
    → Leads
        (emit_all ops (reading compiler last tokens chunk))
        compiler
        tokens
        (code ++ bytes_of_all ops)
        constants
unfolding emit_all
emit_all-Leads [] compiler last tokens chunk {code = code} holding =
    Leads-code (sym (append-nil code))
      (record { last = last; chunk = chunk; ran = refl; holding = holding })
emit_all-Leads (op ∷ ops) compiler last tokens chunk {code = code} holding =
    Leads-code (append_assoc code (byte_of op ∷ []) (bytes_of_all ops)) (
      Leads-bind _ (emit_bytecode-Leads compiler last tokens chunk holding (opcode op))
        (λ last₁ chunk₁ h₁. emit_all-Leads ops compiler last₁ tokens chunk₁ h₁))

add_constant_to_chunk-total :
    (chunk : Chunk) (value : ℕ)
    → length chunk.constants < 255
    → add_constant_to_chunk chunk value
      ≡ some (length chunk.constants, record chunk { constants = chunk.constants ++ value ∷ [] })
unfolding add_constant_to_chunk
add_constant_to_chunk-total chunk value h =
    let small : ltb (length chunk.constants) 255 ≡ true = ground (arith, h) in
    let place : (length (chunk.constants ++ value ∷ []) - 1) % 256 ≡ length chunk.constants =
      omega (arith, h, length-append chunk.constants (value ∷ [])) in
    rw (small, place) refl

pub some-pair :
    {a b c d : List ℕ} → ◌≡◌ {A = Generated} (some (a, b)) (some (c, d)) → (a ≡ c) × (b ≡ d)
some-pair {a} {b} p =
    (ap (λ o. elim o [ none ↦ a | some r ↦ r.0 ]) p, ap (λ o. elim o [ none ↦ b | some r ↦ r.1 ]) p)

-- what `with_constant` gives where it gives something
with_constant-some :
    (op : Bytecode) (value : ℕ) (constants bytes after : List ℕ)
    → with_constant op value constants ≡ some (bytes, after)
    → (length constants < 255)
      × (byte_of op ∷ length constants ∷ [] ≡ bytes)
      × (constants ++ value ∷ [] ≡ after)
with_constant-some op value constants bytes after h =
    elim (Bool-cases (ltb (length constants) 255)) [
      | inl e ↦ let q = rw e at h in (ground arith, (some-pair q).0, (some-pair q).1)
      | inr e ↦ absurd (ground arith)
    ]

pub Leads-ok :
    {m : Result Compiler} {compiler : Compiler} {tokens : List Token} {code constants : List ℕ}
    → Leads m compiler tokens code constants
    → Leads (m >>= ok) compiler tokens code constants
Leads-ok l = record {
  last = l.last;
  chunk = l.chunk;
  ran = ap (λ r. r >>= ok) l.ran;
  holding = l.holding;
}

abbrev pub one_more : Chunk → ℕ → Chunk
one_more chunk value = record chunk { constants = chunk.constants ++ value ∷ [] }

-- The place of a new constant, and the instruction that names it.
module _ (op : Bytecode) (value : ℕ) (compiler : Compiler) (last : Token) (tokens : List Token)
    (chunk : Chunk) {code constants : List ℕ} (bytes after : List ℕ)
    (holding : Holding chunk code constants)
    (h : with_constant op value constants ≡ some (bytes, after)) where
  same_length : length chunk.constants ≡ length constants
  same_length = ap length holding.constants_are

  pub add_constant-reading :
      add_constant value (reading compiler last tokens chunk)
      ≡ ok (length chunk.constants, reading compiler last tokens (one_more chunk value))
  unfolding add_constant
  add_constant-reading =
      let parts = with_constant-some op value constants bytes after h in
      rw (add_constant_to_chunk-total chunk value (omega (arith, parts.0, same_length))) refl

  pub emit_place-Leads :
      Leads
        (emit_bytecodes
          (opcode op)
          (length chunk.constants)
          (reading compiler last tokens (one_more chunk value)))
        compiler
        tokens
        (code ++ bytes)
        after
  emit_place-Leads =
      let parts = with_constant-some op value constants bytes after h in
      let small : length chunk.constants % 256 ≡ length constants =
        omega (arith, parts.0, same_length) in
      let held : Holding (one_more chunk value) code (constants ++ value ∷ []) = record {
        valid = record {
          memory = holding.valid.memory;
          used = holding.valid.used;
          grown = holding.valid.grown;
          covered = holding.valid.covered;
        };
        code_is = holding.code_is;
        constants_are = ap (λ xs. xs ++ value ∷ []) holding.constants_are;
      } in
      let written_code : code ++ byte_of op ∷ length chunk.constants % 256 ∷ [] ≡ code ++ bytes =
        ap (λ n. code ++ byte_of op ∷ n ∷ []) small ∙ ap (λ xs. code ++ xs) parts.1 in
      Leads-code written_code (
        Leads-constants parts.2 (
          emit_bytecodes-Leads compiler last tokens (one_more chunk value) held (opcode op)
            (length chunk.constants)))

  pub with_constant-Leads :
      Leads
        (add_constant value (reading compiler last tokens chunk) >>= λ r.
          emit_bytecodes (opcode op) r.0 r.1)
        compiler
        tokens
        (code ++ bytes)
        after
  with_constant-Leads =
      Leads-path (ap (λ m. m >>= λ r. emit_bytecodes (opcode op) r.0 r.1) add_constant-reading)
        emit_place-Leads

pub Leads-some :
    {m : Result Compiler} {compiler : Compiler} {tokens : List Token} (code : List ℕ)
    {bytes bytes' constants constants' : List ℕ}
    → ◌≡◌ {A = Generated} (some (bytes, constants)) (some (bytes', constants'))
    → Leads m compiler tokens (code ++ bytes) constants
    → Leads m compiler tokens (code ++ bytes') constants'
Leads-some code p l =
    Leads-code (ap (λ xs. code ++ xs) (some-pair p).0) (Leads-constants (some-pair p).1 l)
