-- ===== src/Compiler/Parser/Grammar/Reading.antt =====
-- A compiler that stands before some tokens, and what its writes and its moves lead to.
use lox_vm.Prelude.{
  ℕ, ◌≡◌, refl, ap, ◌∙◌, inl, inr, Bool, true, false, not, List, [], ◌∷◌, arith, ◌==◌, Bool-cases,
}
use lox_vm.Compiler.Scanner.Tokens.{Token, token_error}
use lox_vm.Compiler.Chunk.{Chunk}
use lox_vm.Compiler.Parser.State.{Result, ok, ◌>>=◌, Compiler}
use lox_vm.Compiler.Parser.Tokens.{token_code, next_token, advance_compiler}
use lox_vm.Compiler.Chunk.Writes.{IsChunk, written}

abbrev pub first_of : Compiler → List Token → Token
first_of compiler [] = compiler.current
first_of compiler (t ∷ ts) = t

abbrev pub after_first : List Token → List Token
after_first [] = []
after_first (t ∷ ts) = ts

-- The compiler behind `last`, before the tokens, with the chunk.
abbrev pub reading : Compiler → Token → List Token → Chunk → Compiler
reading compiler last tokens chunk = record compiler {
  previous = last;
  current = first_of compiler tokens;
  tokens = after_first tokens;
  current_function = record compiler.current_function { chunk = chunk };
}

-- There is a next token, which is not an error of the scanner.
abbrev pub readable : List Token → Bool
readable [] = false
readable (t ∷ ts) = not (token_code t.type == token_code token_error)

pub advance_compiler-reading :
    (compiler : Compiler) (last t : Token) (ts : List Token) (chunk : Chunk)
    → readable ts ≡ true
    → advance_compiler (reading compiler last (t ∷ ts) chunk) ≡ ok (reading compiler t ts chunk)
unfolding advance_compiler next_token
advance_compiler-reading compiler last t [] chunk h = absurd (ground arith)
advance_compiler-reading compiler last t (u ∷ ts) chunk h =
    elim (Bool-cases (token_code u.type == token_code token_error)) [
      | inl e ↦ absurd (ground arith)
      | inr e ↦ rw e refl
    ]

-- The content of a chunk: its code and its constants.
pub record Holding (chunk : Chunk) (code constants : List ℕ) : Type 0 where
  pub valid : IsChunk chunk
  pub code_is : written chunk ≡ code
  pub constants_are : chunk.constants ≡ constants

-- A run that ends before the tokens, with the content.
pub record Leads (m : Result Compiler) (compiler : Compiler) (tokens : List Token)
    (code constants : List ℕ) : Type 0 where
  pub last : Token
  pub chunk : Chunk
  pub ran : m ≡ ok (reading compiler last tokens chunk)
  pub holding : Holding chunk code constants

pub Leads-bind :
    {m : Result Compiler} {compiler : Compiler} {tokens tokens' : List Token}
    {code constants code' constants' : List ℕ} (f : Compiler → Result Compiler)
    → Leads m compiler tokens code constants
    → ((last : Token) (chunk : Chunk)
        → Holding chunk code constants
        → Leads (f (reading compiler last tokens chunk)) compiler tokens' code' constants')
    → Leads (m >>= f) compiler tokens' code' constants'
Leads-bind f first next =
    let second = next first.last first.chunk first.holding in
    record {
      last = second.last;
      chunk = second.chunk;
      ran = ap (λ r. r >>= f) first.ran ∙ second.ran;
      holding = second.holding;
    }

pub Leads-path :
    {m m' : Result Compiler} {compiler : Compiler} {tokens : List Token} {code constants : List ℕ}
    → m ≡ m'
    → Leads m' compiler tokens code constants
    → Leads m compiler tokens code constants
Leads-path p l = record { last = l.last; chunk = l.chunk; ran = p ∙ l.ran; holding = l.holding }

pub Leads-code :
    {m : Result Compiler} {compiler : Compiler} {tokens : List Token}
    {code code' constants : List ℕ}
    → code ≡ code'
    → Leads m compiler tokens code constants
    → Leads m compiler tokens code' constants
Leads-code p l = record {
  last = l.last;
  chunk = l.chunk;
  ran = l.ran;
  holding = record {
    valid = l.holding.valid;
    code_is = l.holding.code_is ∙ p;
    constants_are = l.holding.constants_are;
  };
}

pub Leads-constants :
    {m : Result Compiler} {compiler : Compiler} {tokens : List Token}
    {code constants constants' : List ℕ}
    → constants ≡ constants'
    → Leads m compiler tokens code constants
    → Leads m compiler tokens code constants'
Leads-constants p l = record {
  last = l.last;
  chunk = l.chunk;
  ran = l.ran;
  holding = record {
    valid = l.holding.valid;
    code_is = l.holding.code_is;
    constants_are = l.holding.constants_are ∙ p;
  };
}
