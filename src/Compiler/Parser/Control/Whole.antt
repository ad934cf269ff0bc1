-- ===== src/Compiler/Parser/Control/Whole.antt =====
-- The statement at hand, read from the state of the compiler.
use lox_vm.Prelude.{ℕ, ◌≤◌, ◌≡◌, refl, ap, ◌∙◌, true, some, List, ◌∷◌, ◌++◌}
use lox_vm.Compiler.Scanner.Tokens.{Token}
use lox_vm.Compiler.Chunk.{Chunk}
use lox_vm.Compiler.Parser.State.{ok, Compiler, Services}
use lox_vm.Compiler.Parser.Emit.{current_chunk}
use lox_vm.Compiler.Chunk.Writes.{IsChunk, written}
use lox_vm.Compiler.Parser.Grammar.{names}
use lox_vm.Compiler.Parser.Grammar.Reading.{reading}
use lox_vm.Compiler.Parser.Declarations.{statement}
use lox_vm.Compiler.Parser.Control.{
  Statement, print_statement_tree, well_formed, statement_depth, generate_statement,
}
use lox_vm.Compiler.Parser.Control.Words.{continues}
use lox_vm.Compiler.Parser.Control.Scopes.{Quiet}
use lox_vm.Compiler.Parser.Control.Runs.{reads_statement}

-- A state in which a statement is read: a chunk in order, no assignment under way, no local variable deeper
-- than the scope.
pub record Ready (compiler : Compiler) : Type 0 where
  pub valid : IsChunk (current_chunk compiler)
  pub quiet : Quiet compiler

-- In a compiler that is ready (its chunk in order, no assignment pending, no local variable deeper than the
-- scope), and with enough fuel, `statement` reads the tokens of a well formed statement tree up to tokens that
-- may follow it, of which the first is neither an error nor `else`. A tree is a print or an expression
-- statement, a block, a `while` or an `if` with or without `else`, whose bodies are blocks in braces, and it
-- is well formed if all its expressions are well bracketed. If the tree generates code, `statement` appends
-- this code to the chunk, jumps with their distances, and its constants to the table; else the compiler is as
-- it was, but for its place in the tokens.
pub statement-generate_statement :
    (services : Services) (compiler : Compiler) (s : Statement) (fuel : ℕ) (ts : List Token)
    (bytes after : List ℕ)
    → Ready compiler
    → compiler.current ∷ compiler.tokens ≡ print_statement_tree s ts
    → well_formed s ≡ true
    → continues ts ≡ true
    → statement_depth s ≤ fuel
    → generate_statement services (names compiler) s (current_chunk compiler).constants
      ≡ some (bytes, after)
    → (last : Token) × (chunk : Chunk) × (statement services fuel compiler
        ≡ ok (reading compiler last ts chunk))
      × IsChunk chunk
      × (written chunk ≡ written (current_chunk compiler) ++ bytes)
      × (chunk.constants ≡ after)
statement-generate_statement services compiler s fuel ts bytes after ready tokens formed follow
      enough made =
    let chunk = current_chunk compiler in
    let r =
      reads_statement services s compiler fuel ts chunk.constants bytes after ready.quiet enough
        formed follow made compiler.previous chunk (written chunk)
        (record { valid = ready.valid; code_is = refl; constants_are = refl }) in
    let read =
      ap (λ us. statement services fuel (reading compiler compiler.previous us chunk)) tokens in
    (r.last, r.chunk, read ∙ r.ran, r.holding.valid, r.holding.code_is, r.holding.constants_are)
