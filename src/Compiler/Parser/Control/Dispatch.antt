-- ===== src/Compiler/Parser/Control/Dispatch.antt =====
-- The statement that the first word chooses, in statement and declaration of bytecode_compiler.c.
use lox_vm.Prelude.{ℕ, suc, ◌≡◌, refl, true, List, ◌∷◌}
use lox_vm.Compiler.Scanner.Tokens.{
  Token, TokenType, token_open_brace, token_close_brace, token_if, token_print, token_while,
}
use lox_vm.Compiler.Chunk.{Chunk}
use lox_vm.Compiler.Parser.State.{ok, ◌>>=◌, Compiler, Services, Step}
use lox_vm.Compiler.Parser.Tokens.{token_code, advance_compiler, check, match_token}
use lox_vm.Compiler.Parser.Scopes.{begin_scope, end_scope}
use lox_vm.Compiler.Parser.Grammar.{Spelling, spelled}
use lox_vm.Compiler.Parser.Grammar.Reading.{reading, readable, advance_compiler-reading}
use lox_vm.Compiler.Parser.Statements.{
  block_rounds, on_match, expression_statement, print_statement, while_statement, if_statement,
  block, statement_rules,
}
use lox_vm.Compiler.Parser.Declarations.{declaration_rules, statement, declaration}
use lox_vm.Compiler.Parser.Control.Words.{
  begins_expression, begins_statement, begins_expression-NoStatementWord,
  begins_statement-NoDeclarationWord, Begins,
}

module _ (services : Services) (compiler : Compiler) (fuel : ℕ) (prev : Token) (chunk : Chunk) where
  -- A statement among declarations.
  pub declaration-statement :
      {tokens : List Token}
      → Begins begins_statement tokens
      → declaration services (suc fuel) (reading compiler prev tokens chunk)
        ≡ statement services fuel (reading compiler prev tokens chunk)
  unfolding declaration declaration_rules on_match match_token check
  declaration-statement b =
      let n = begins_statement-NoDeclarationWord b.first.type b.begins in
      rw b.tokens_are (
        rw (n.no_pub, n.no_const, n.no_var, n.no_struct, n.no_parallel, n.no_inline, n.no_fun) refl)

  pub statement-expression_statement :
      {tokens : List Token}
      → Begins begins_expression tokens
      → statement services (suc fuel) (reading compiler prev tokens chunk)
        ≡ expression_statement services fuel (reading compiler prev tokens chunk)
  unfolding statement statement_rules on_match match_token check
  statement-expression_statement b =
      let n = begins_expression-NoStatementWord b.first.type b.begins in
      rw b.tokens_are
        (rw (n.no_print, n.no_brace, n.no_for, n.no_while, n.no_if, n.no_return, n.no_sync) refl)

  module _ (s : Spelling) (tokens : List Token) (h : readable tokens ≡ true) where
    abbrev behind : TokenType → Compiler
    behind type = reading compiler (spelled type s) tokens chunk

    moves :
        (type : TokenType)
        → advance_compiler (reading compiler prev (spelled type s ∷ tokens) chunk)
          ≡ ok (behind type)
    moves type = advance_compiler-reading compiler prev (spelled type s) tokens chunk h

    pub statement-print_statement :
        statement services (suc fuel) (reading compiler prev (spelled token_print s ∷ tokens) chunk)
        ≡ print_statement services fuel (behind token_print)
    unfolding statement statement_rules on_match match_token check token_code
    statement-print_statement = rw (moves token_print) refl

    pub statement-block :
        statement services
          (suc fuel)
          (reading compiler prev (spelled token_open_brace s ∷ tokens) chunk)
        ≡ (block services fuel
              (statement services fuel)
              (declaration services fuel)
              (begin_scope (behind token_open_brace))
            >>= λ d. ok (end_scope d))
    unfolding statement statement_rules on_match match_token check token_code
    statement-block = rw (moves token_open_brace) refl

    pub statement-while_statement :
        statement services (suc fuel) (reading compiler prev (spelled token_while s ∷ tokens) chunk)
        ≡ while_statement services fuel
            (statement services fuel)
            (declaration services fuel)
            (behind token_while)
    unfolding statement statement_rules on_match match_token check token_code
    statement-while_statement = rw (moves token_while) refl

    pub statement-if_statement :
        statement services (suc fuel) (reading compiler prev (spelled token_if s ∷ tokens) chunk)
        ≡ if_statement services fuel
            (statement services fuel)
            (declaration services fuel)
            (behind token_if)
    unfolding statement statement_rules on_match match_token check token_code
    statement-if_statement = rw (moves token_if) refl

module _ (services : Services) (rounds : ℕ) (statement declaration : Step) (compiler : Compiler)
    (fuel : ℕ) (prev : Token) (chunk : Chunk) where
  pub block_rounds-declaration :
      {tokens : List Token}
      → Begins begins_statement tokens
      → block_rounds services rounds statement declaration
          (suc fuel)
          (reading compiler prev tokens chunk)
        ≡ (declaration (reading compiler prev tokens chunk)
            >>= block_rounds services rounds statement declaration fuel)
  unfolding block_rounds check
  block_rounds-declaration b =
      let n = begins_statement-NoDeclarationWord b.first.type b.begins in
      rw b.tokens_are (rw (block_rounds, n.no_close, n.no_eof) refl)

  pub block_rounds-close :
      (s : Spelling) (ts : List Token)
      → block_rounds services rounds statement declaration
          (suc fuel)
          (reading compiler prev (spelled token_close_brace s ∷ ts) chunk)
        ≡ ok (reading compiler prev (spelled token_close_brace s ∷ ts) chunk)
  unfolding block_rounds check token_code
  block_rounds-close s ts = refl
