-- ===== src/Examples/Parsing.antt =====
-- Small programs, compiled.
use lox_vm.Prelude.{
  ℕ, ◌-◌, String, ◌≡◌, refl, inl, none, List, [], ◌∷◌, ◌++◌, arith, leb, ◌==◌, length, list_eq,
  codes,
}
use lox_vm.Shared.Bytecode.{
  op_pop, op_print, op_add, op_mul, op_jump_if_false, op_jump, op_loop, op_fast_const_8, op_const_1,
  op_const_2, opcode,
}
use lox_vm.Compiler.Scanner.Tokens.{Token, token_semicolon, token_number, token_eof}
use lox_vm.Compiler.Chunk.{init_chunk, Chunk}
use lox_vm.Compiler.Parser.State.{ok, scope_package, Symbols, Compiler, Services, init_compiler}
use lox_vm.Compiler.Parser.Tokens.{token_code}
use lox_vm.Compiler.Chunk.Writes.{IsChunk, written}
use lox_vm.Compiler.Parser.Rules.{prec_assignment, get_rule}
use lox_vm.Compiler.Parser.Expressions.{parse_precedence}
use lox_vm.Compiler.Parser.Grammar.{
  Spelling, spelled, plus, times, Expr, numeral, binary_expr, print_expr, well_bracketed, generate,
  depth_of,
}
use lox_vm.Compiler.Parser.Grammar.Reading.{reading}
use lox_vm.Compiler.Parser.Grammar.Reads.{parse_precedence-generate}
use lox_vm.Compiler.Parser.Declarations.{statement}
use lox_vm.Compiler.Parser.Control.{
  Statement, print_of, expression_of, while_do, if_else, closed, followed, print_statement_tree,
  well_formed, statement_depth, generate_statement,
}
use lox_vm.Compiler.Parser.Control.Whole.{Ready, statement-generate_statement}

-- A double is its number here, and one digit is read.
abbrev services : Services
services = record {
  strtod = λ text. elim text [ [] ↦ 0 | c ∷ rest ↦ c - 48 ];
  double_at_most = leb;
  double_equals = ◌==◌;
  double_to_int = λ d. d;
  string_value = length;
  function_value = λ f. 100;
  struct_value = λ d. 101;
  same_key = list_eq;
  find_package = λ name. none;
}

abbrev spelling : String → Spelling
spelling s = record { start = codes s; length = length (codes s); line = 1 }

abbrev no_symbols : Symbols
no_symbols = record { value = 0; exported_symbols = []; struct_definitions = [] }

abbrev first_token : Token
first_token = spelled token_number (spelling "1")

-- A compiler of a package before some tokens.
abbrev before : List Token → Compiler
unfolding init_compiler
before [] = init_compiler scope_package no_symbols [] [] first_token first_token
before (t ∷ ts) = init_compiler scope_package no_symbols [] ts t first_token

abbrev one : Expr
one = numeral (spelling "1")

abbrev two : Expr
two = numeral (spelling "2")

abbrev three : Expr
three = numeral (spelling "3")

-- 1 + 2 * 3
abbrev sum : Expr
sum = binary_expr plus one (spelling "+") (binary_expr times two (spelling "*") three)

abbrev semicolon : Token
semicolon = spelled token_semicolon (spelling ";")

abbrev end_of_file : Token
end_of_file = spelled token_eof (spelling "")

abbrev sum_code : List ℕ
sum_code =
    opcode op_const_1
    ∷ opcode op_const_2
    ∷ opcode op_fast_const_8
    ∷ 3
    ∷ opcode op_mul
    ∷ opcode op_add
    ∷ []

empty-IsChunk : IsChunk init_chunk
unfolding init_chunk
empty-IsChunk = record {
  memory = refl;
  used = omega arith;
  grown = inl refl;
  covered = λ size h. omega arith;
}

parse_precedence-generate_example :
    (last : Token) × (chunk : Chunk) × (parse_precedence services 9 prec_assignment
        (before (print_expr sum ++ semicolon ∷ end_of_file ∷ []))
      ≡ ok (
          reading
            (before (print_expr sum ++ semicolon ∷ end_of_file ∷ []))
            last
            (semicolon ∷ end_of_file ∷ [])
            chunk))
    × IsChunk chunk
    × (written chunk ≡ [] ++ sum_code)
    × (chunk.constants ≡ [])
unfolding print_expr init_compiler init_chunk well_bracketed depth_of generate opcode get_rule
parse_precedence-generate_example =
    parse_precedence-generate services (before (print_expr sum ++ semicolon ∷ end_of_file ∷ [])) sum
      prec_assignment 9 semicolon (end_of_file ∷ []) sum_code [] empty-IsChunk refl refl
      (omega arith) (omega arith) refl (omega arith) (omega arith) refl

-- if (1) { print 2; } else { while (3) { 1; } }
abbrev branches : Statement
branches =
    if_else (spelling "if") (spelling "(") one (spelling ")") (spelling "{")
      (followed (print_of (spelling "print") two (spelling ";")) (closed (spelling "}")))
      (spelling "else") (spelling "{")
      (followed
        (while_do (spelling "while") (spelling "(") three (spelling ")") (spelling "{")
          (followed (expression_of one (spelling ";")) (closed (spelling "}"))))
        (closed (spelling "}")))

abbrev branches_code : List ℕ
branches_code =
    opcode op_const_1
    ∷ opcode op_jump_if_false
    ∷ 5
    ∷ 0
    ∷ opcode op_const_2
    ∷ opcode op_print
    ∷ opcode op_jump
    ∷ 10
    ∷ 0
    ∷ opcode op_fast_const_8
    ∷ 3
    ∷ opcode op_jump_if_false
    ∷ 5
    ∷ 0
    ∷ opcode op_const_1
    ∷ opcode op_pop
    ∷ opcode op_loop
    ∷ 10
    ∷ 0
    ∷ []

abbrev program : Compiler
program = before (print_statement_tree branches (end_of_file ∷ []))

program-Ready : Ready program
unfolding init_compiler print_statement_tree init_chunk
program-Ready = record {
  valid = empty-IsChunk;
  quiet = record { no_set = refl; no_array_set = refl; in_scope = refl };
}

statement-generate_statement_example :
    (last : Token) × (chunk : Chunk) × (statement services 30 program
      ≡ ok (reading program last (end_of_file ∷ []) chunk))
    × IsChunk chunk
    × (written chunk ≡ [] ++ branches_code)
    × (chunk.constants ≡ [])
unfolding print_statement_tree init_compiler init_chunk well_formed statement_depth
    generate_statement opcode token_code
statement-generate_statement_example =
    statement-generate_statement services program branches 30 (end_of_file ∷ []) branches_code []
      program-Ready refl refl refl (omega arith) refl
