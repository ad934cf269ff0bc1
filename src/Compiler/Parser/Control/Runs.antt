-- ===== src/Compiler/Parser/Control/Runs.antt =====
-- The parser reads the tokens of statements, and emits the code that they stand for.
use lox_vm.Prelude.{
  ℕ, zero, suc, ◌+◌, ◌≤◌, String, ◌≡◌, refl, sym, ap, ◌∙◌, true, false, ◌&&◌, some, List, [], ◌∷◌,
  ◌++◌, append_assoc, append-nil, arith, ◌==◌, length,
}
use lox_vm.Shared.Bytecode.{op_pop, op_print, op_jump_if_false, opcode}
use lox_vm.Compiler.Scanner.Tokens.{
  Token, token_open_brace, token_close_brace, token_semicolon, token_else, token_if, token_print,
  token_while,
}
use lox_vm.Compiler.Chunk.{Chunk}
use lox_vm.Compiler.Parser.State.{ok, ◌>>=◌, joined_rest, Compiler, Services, Step}
use lox_vm.Compiler.Parser.Tokens.{token_code, check, match_token, consume}
use lox_vm.Compiler.Parser.Emit.{emit_bytecode}
use lox_vm.Compiler.Parser.Scopes.{begin_scope}
use lox_vm.Compiler.Parser.Rules.{prec_assignment, get_rule}
use lox_vm.Compiler.Parser.Variables.{expression}
use lox_vm.Compiler.Parser.Grammar.{
  Spelling, spelled, Expr, print_expr, well_bracketed, generate, depth_of, names,
}
use lox_vm.Compiler.Parser.Grammar.Reading.{
  reading, readable, advance_compiler-reading, Holding, Leads, Leads-bind, Leads-path, Leads-code,
  Leads-constants,
}
use lox_vm.Compiler.Parser.Grammar.Writing.{emit_bytecode-Leads, some-pair, Leads-some}
use lox_vm.Compiler.Parser.Grammar.Shape.{
  operand_depth, level-least, both, followed_by-some, readable-print_expr,
}
use lox_vm.Compiler.Parser.Grammar.Parts.{whole, consume-Leads}
use lox_vm.Compiler.Parser.Grammar.Reads.{prefix}
use lox_vm.Compiler.Parser.Statements.{
  on_match, whole_expression, expression_statement, print_statement, block, block_rounds,
}
use lox_vm.Compiler.Parser.Declarations.{statement, declaration}
use lox_vm.Compiler.Parser.Control.{
  Statement, Statements, print_of, expression_of, nested, while_do, if_only, if_else, closed,
  followed, print_statement_tree, print_statements, condition_tokens, well_formed, all_well_formed,
  statement_depth, statements_depth, jump_over, jump_back, otherwise, nothing_else,
  generate_statement, generate_statements,
}
use lox_vm.Compiler.Parser.Control.Words.{
  print_expr-Begins, print_statement_tree-Begins, continues, continues-readable,
}
use lox_vm.Compiler.Parser.Control.Dispatch.{
  statement-print_statement, statement-block, statement-while_statement, statement-if_statement,
  declaration-statement, statement-expression_statement, block_rounds-declaration,
  block_rounds-close,
}
use lox_vm.Compiler.Parser.Control.Branches.{ReadsCode, if_statement-Leads, while_statement-Leads}
use lox_vm.Compiler.Parser.Control.Scopes.{Quiet, Quiet-begin_scope}
use lox_vm.Compiler.Parser.Control.Sequences.{
  Leads-scope, neither, statement_depth-positive, print_statements-readable,
  print_statements-continues, conditional-parts, otherwise-parts, appended-parts,
}

module _ (services : Services) where
  expression_part :
      (compiler : Compiler) (e : Expr) (fuel : ℕ) (prev : Token) (s : Spelling) (message : String)
      (ts : List Token) (chunk : Chunk) {code constants bytes after code' constants' : List ℕ}
      (f : Step)
      → depth_of e ≤ fuel
      → well_bracketed e ≡ true
      → readable ts ≡ true
      → Holding chunk code constants
      → generate services (names compiler) e constants ≡ some (bytes, after)
      → ((last : Token) (chunk' : Chunk)
          → Holding chunk' (code ++ bytes) after
          → Leads (f (reading compiler last ts chunk')) compiler ts code' constants')
      → Leads
          (whole_expression services fuel
              (reading compiler prev (print_expr e ++ spelled token_semicolon s ∷ ts) chunk)
            >>= λ c₁. consume token_semicolon message c₁ >>= f)
          compiler
          ts
          code'
          constants'
  unfolding whole_expression expression get_rule
  expression_part compiler e fuel prev s message ts chunk {code} {constants} {bytes} {after} f
        enough bracketed h holding made next =
      Leads-bind {tokens = spelled token_semicolon s ∷ ts} _
        (whole services compiler e (prefix services compiler e) prec_assignment fuel prev
          (spelled token_semicolon s) ts chunk code constants bytes after enough (level-least e)
          (omega arith) refl (omega arith) bracketed holding made)
        (λ l₁ k₁ h₁.
          Leads-bind {tokens = ts} f
            (consume-Leads services compiler token_semicolon s message l₁ ts k₁ h₁ h) next)

  no_else-Leads :
      (compiler : Compiler) (f : Step) (ts : List Token) (constants : List ℕ)
      → continues ts ≡ true
      → ReadsCode services compiler 0 (on_match token_else f ok) ts ts [] constants constants
  unfolding on_match match_token check
  no_else-Leads compiler f [] constants h last chunk code holding = absurd (ground arith)
  no_else-Leads compiler f (t ∷ ts) constants h last chunk code holding =
      let missed : (token_code t.type == token_code token_else) ≡ false = ground (arith, h) in
      rw missed (
        Leads-code (sym (append-nil code))
          (record { last = last; chunk = chunk; ran = refl; holding = holding }))

  else-Leads :
      (compiler : Compiler) (f : Step) (s : Spelling) (tokens ts : List Token)
      (bytes constants after : List ℕ)
      → readable tokens ≡ true
      → ReadsCode services compiler 0 f tokens ts bytes constants after
      → ReadsCode services compiler 0
          (on_match token_else f ok)
          (spelled token_else s ∷ tokens)
          ts
          bytes
          constants
          after
  unfolding on_match match_token check token_code
  else-Leads compiler f s tokens ts bytes constants after h reads last chunk code holding =
      rw (advance_compiler-reading compiler last (spelled token_else s) tokens chunk h)
        (reads (spelled token_else s) chunk code holding)

  -- A block is read by its brace, in a scope of its own.
  nested-Leads :
      (compiler : Compiler) (fuel : ℕ) (s : Spelling) (tokens ts : List Token)
      (bytes constants after : List ℕ)
      → Quiet compiler
      → readable tokens ≡ true
      → ReadsCode services
          (begin_scope compiler)
          0
          (block services fuel (statement services fuel) (declaration services fuel))
          tokens
          ts
          bytes
          constants
          after
      → ReadsCode services compiler 0
          (statement services (suc fuel))
          (spelled token_open_brace s ∷ tokens)
          ts
          bytes
          constants
          after
  unfolding begin_scope
  nested-Leads compiler fuel s tokens ts bytes constants after q h reads last chunk code holding =
      Leads-path (statement-block services compiler fuel last chunk s tokens h)
        (Leads-scope q (reads (spelled token_open_brace s) chunk code holding))

  -- The loop over the statements of a block, and its brace.
  abbrev ReadsRounds : Statements → Type 0
  ReadsRounds b =
      (compiler : Compiler) (fuel rounds : ℕ) (ts : List Token) (constants bytes after : List ℕ)
      → Quiet compiler
      → statements_depth b ≤ fuel
      → statements_depth b ≤ rounds
      → all_well_formed b ≡ true
      → readable ts ≡ true
      → generate_statements services (names compiler) b constants ≡ some (bytes, after)
      → ReadsCode services compiler 0
          (λ c.
            block_rounds services fuel (statement services fuel) (declaration services fuel) rounds
              c
            >>= consume token_close_brace "Expected '}' after block.")
          (print_statements b ts) ts bytes constants after

  -- A block behind its brace.
  reads_braced :
      (b : Statements)
      → ReadsRounds b
      → (compiler : Compiler) (fuel : ℕ) (s : Spelling) (ts : List Token)
        (constants bytes after : List ℕ)
      → Quiet compiler
      → suc (statements_depth b) ≤ fuel
      → all_well_formed b ≡ true
      → readable ts ≡ true
      → generate_statements services (names compiler) b constants ≡ some (bytes, after)
      → ReadsCode services compiler 0
          (statement services fuel)
          (spelled token_open_brace s ∷ print_statements b ts)
          ts
          bytes
          constants
          after
  unfolding block begin_scope
  reads_braced b reads compiler zero s ts constants bytes after q enough formed h made =
      absurd (omega (arith, enough))
  reads_braced b reads compiler (suc fuel) s ts constants bytes after q enough formed h made =
      nested-Leads compiler fuel s (print_statements b ts) ts bytes constants after q
        (print_statements-readable b ts)
        (reads (begin_scope compiler) fuel fuel ts constants bytes after (Quiet-begin_scope q)
          (operand_depth enough) (operand_depth enough) formed h made)

  mutual
    unfolding print_statement_tree print_statements well_formed all_well_formed statement_depth
        statements_depth generate_statement generate_statements block print_statement
        expression_statement

    -- A statement, before tokens that may follow it.
    pub reads_statement :
        (s : Statement) (compiler : Compiler) (fuel : ℕ) (ts : List Token)
        (constants bytes after : List ℕ)
        → Quiet compiler
        → statement_depth s ≤ fuel
        → well_formed s ≡ true
        → continues ts ≡ true
        → generate_statement services (names compiler) s constants ≡ some (bytes, after)
        → ReadsCode services compiler 0
            (statement services fuel)
            (print_statement_tree s ts)
            ts
            bytes
            constants
            after
    reads_statement s compiler zero ts constants bytes after q enough formed h made last chunk code
          holding =
        absurd (omega (arith, enough, statement_depth-positive s))
    reads_statement (print_of s e s₁) compiler (suc fuel) ts constants bytes after q enough formed h
          made last chunk code holding =
        let (inner, made_e, whole_code) =
          followed_by-some (generate services (names compiler) e constants) (op_print ∷ []) made in
        let closing = spelled token_semicolon s₁ ∷ ts in
        let here = reading compiler (spelled token_print s) (print_expr e ++ closing) chunk in
        Leads-path
          (statement-print_statement services compiler fuel last chunk s (print_expr e ++ closing)
              (readable-print_expr e closing)
            ∙ joined_rest (consume token_semicolon "Expected ';' after print.")
                (emit_bytecode (opcode op_print)) (whole_expression services fuel here))
          (Leads-code (append_assoc code inner _ ∙ ap (λ xs. code ++ xs) whole_code) (
            expression_part compiler e fuel (spelled token_print s) s₁ "Expected ';' after print."
              ts chunk (emit_bytecode (opcode op_print)) (operand_depth enough) formed
              (continues-readable ts h) holding made_e
              (λ l k h₁. emit_bytecode-Leads compiler l ts k h₁ (opcode op_print))))
    reads_statement (expression_of e s) compiler (suc fuel) ts constants bytes after q enough formed
          h made last chunk code holding =
        let (inner, made_e, whole_code) =
          followed_by-some (generate services (names compiler) e constants) (op_pop ∷ []) made in
        Leads-path
          (statement-expression_statement services compiler fuel last chunk
            (print_expr-Begins e (spelled token_semicolon s ∷ ts)))
          (Leads-code (append_assoc code inner _ ∙ ap (λ xs. code ++ xs) whole_code) (
            expression_part compiler e fuel last s "Expected ';'." ts chunk _ (operand_depth enough)
              formed (continues-readable ts h) holding made_e
              (λ l k h₁.
                Leads-path (neither _ _ _ _ q.no_set q.no_array_set)
                  (emit_bytecode-Leads compiler l ts k h₁ (opcode op_pop)))))
    reads_statement (nested s b) compiler (suc fuel) ts constants bytes after q enough formed h made
          last chunk code holding =
        reads_braced b (reads_rounds b) compiler (suc fuel) s ts constants bytes after q enough
          formed (continues-readable ts h) made last chunk code holding
    reads_statement (while_do s s₁ e s₂ s₃ b) compiler (suc fuel) ts constants bytes after q enough
          formed h made last chunk code holding =
        let parts =
          conditional-parts (generate services (names compiler) e constants)
            (generate_statements services (names compiler) b) jump_back bytes after made in
        let jump = some-pair parts.made_r in
        let fine = both {a = well_bracketed e} {b = all_well_formed b} formed in
        let body = spelled token_open_brace s₃ ∷ print_statements b ts in
        Leads-path
          (statement-while_statement services compiler fuel last chunk s
            (condition_tokens s₁ e s₂ body) refl)
          (Leads-code
            (ap
                (λ r.
                  code
                  ++ (parts.c
                      ++ (jump_over op_jump_if_false (length parts.b + 3) ++ (parts.b ++ r))))
                jump.0
              ∙ ap (λ xs. code ++ xs) parts.joined)
            (Leads-constants jump.1 (
              while_statement-Leads services compiler fuel (statement services fuel)
                (declaration services fuel) e s₁ s₂ (spelled token_while s) body ts chunk code
                constants parts.c parts.middle parts.b parts.middle' (omega (arith, enough)) fine.0
                refl holding parts.made_c
                (reads_braced b (reads_rounds b) compiler fuel s₃ ts parts.middle parts.b
                  parts.middle' q (omega (arith, enough)) fine.1 (continues-readable ts h)
                  parts.made_b))))
    reads_statement (if_only s s₁ e s₂ s₃ b) compiler (suc fuel) ts constants bytes after q enough
          formed h made last chunk code holding =
        let parts =
          conditional-parts (generate services (names compiler) e constants)
            (generate_statements services (names compiler) b) (otherwise nothing_else) bytes after
            made in
        let jump = some-pair parts.made_r in
        let fine = both {a = well_bracketed e} {b = all_well_formed b} formed in
        let body = spelled token_open_brace s₃ ∷ print_statements b ts in
        Leads-path
          (statement-if_statement services compiler fuel last chunk s
            (condition_tokens s₁ e s₂ body) refl)
          (Leads-code
            (ap
                (λ r.
                  code
                  ++ (parts.c
                      ++ (jump_over op_jump_if_false (length parts.b + 3) ++ (parts.b ++ r))))
                jump.0
              ∙ ap (λ xs. code ++ xs) parts.joined)
            (Leads-constants jump.1 (
              if_statement-Leads services compiler fuel (statement services fuel)
                (declaration services fuel) e s₁ s₂ (spelled token_if s) body ts ts chunk code
                constants parts.c parts.middle parts.b parts.middle' [] parts.middle'
                (omega (arith, enough)) fine.0 refl holding parts.made_c
                (reads_braced b (reads_rounds b) compiler fuel s₃ ts parts.middle parts.b
                  parts.middle' q (omega (arith, enough)) fine.1 (continues-readable ts h)
                  parts.made_b)
                (no_else-Leads compiler (statement services fuel) ts parts.middle' h))))
    reads_statement (if_else s s₁ e s₂ s₃ b s₄ s₅ d) compiler (suc fuel) ts constants bytes after q
          enough formed h made last chunk code holding =
        let parts =
          conditional-parts (generate services (names compiler) e constants)
            (generate_statements services (names compiler) b)
            (otherwise (generate_statements services (names compiler) d)) bytes after made in
        let (other, made_d, jump) =
          otherwise-parts (generate_statements services (names compiler) d) parts.c parts.b
            parts.middle' parts.made_r in
        let fine =
          both {a = well_bracketed e} {b = all_well_formed b && all_well_formed d} formed in
        let fine' = both {a = all_well_formed b} {b = all_well_formed d} fine.1 in
        let rest = spelled token_open_brace s₅ ∷ print_statements d ts in
        let body =
          spelled token_open_brace s₃ ∷ print_statements b (spelled token_else s₄ ∷ rest) in
        Leads-path
          (statement-if_statement services compiler fuel last chunk s
            (condition_tokens s₁ e s₂ body) refl)
          (Leads-code
            (ap
                (λ r.
                  code
                  ++ (parts.c
                      ++ (jump_over op_jump_if_false (length parts.b + 3) ++ (parts.b ++ r))))
                jump
              ∙ ap (λ xs. code ++ xs) parts.joined)
            (if_statement-Leads services compiler fuel (statement services fuel)
              (declaration services fuel) e s₁ s₂ (spelled token_if s) body
              (spelled token_else s₄ ∷ rest) ts chunk code constants parts.c parts.middle parts.b
              parts.middle' other after (omega (arith, enough)) fine.0 refl holding parts.made_c
              (reads_braced b (reads_rounds b) compiler fuel s₃ (spelled token_else s₄ ∷ rest)
                parts.middle parts.b parts.middle' q (omega (arith, enough)) fine'.0 refl
                parts.made_b)
              (else-Leads compiler (statement services fuel) s₄ rest ts other parts.middle' after
                refl
                (reads_braced d (reads_rounds d) compiler fuel s₅ ts parts.middle' other after q
                  (omega (arith, enough)) fine'.1 (continues-readable ts h) made_d))))

    reads_rounds : (b : Statements) → ReadsRounds b
    reads_rounds (closed s) compiler fuel zero ts constants bytes after q enough more formed h made
          last chunk code holding =
        absurd (omega (arith, more))
    reads_rounds (closed s) compiler fuel (suc rounds) ts constants bytes after q enough more formed
          h made last chunk code holding =
        Leads-path
          (ap (λ m. m >>= consume token_close_brace "Expected '}' after block.")
            (block_rounds-close services fuel (statement services fuel) (declaration services fuel)
              compiler rounds last chunk s ts))
          (Leads-some code made (
            Leads-code (sym (append-nil code)) (
              consume-Leads services compiler token_close_brace s "Expected '}' after block." last
                ts chunk holding h)))
    reads_rounds (followed s b) compiler zero rounds ts constants bytes after q enough more formed h
          made last chunk code holding =
        absurd (omega (arith, enough))
    reads_rounds (followed s b) compiler (suc fuel) zero ts constants bytes after q enough more
          formed h made last chunk code holding =
        absurd (omega (arith, more))
    reads_rounds (followed s b) compiler (suc fuel) (suc rounds) ts constants bytes after q enough
          more formed h made last chunk code holding =
        let (x, middle, y, made_s, made_b, joined) =
          appended-parts (generate_statement services (names compiler) s constants)
            (generate_statements services (names compiler) b) made in
        let fine = both {a = well_formed s} {b = all_well_formed b} formed in
        let rest = print_statements b ts in
        let begins = print_statement_tree-Begins s rest in
        let here = reading compiler last (print_statement_tree s rest) chunk in
        let close = consume token_close_brace "Expected '}' after block." in
        let loop =
          block_rounds services (suc fuel) (statement services (suc fuel))
            (declaration services (suc fuel)) rounds in
        Leads-path
          (ap (λ m. m >>= close)
              (block_rounds-declaration services (suc fuel) (statement services (suc fuel))
                (declaration services (suc fuel)) compiler rounds last chunk begins)
            ∙ joined_rest loop close (declaration services (suc fuel) here))
          (Leads-code (append_assoc code x y ∙ ap (λ xs. code ++ xs) joined) (
            Leads-bind {tokens = rest} _
              (Leads-path (declaration-statement services compiler fuel last chunk begins) (
                reads_statement s compiler fuel rest constants x middle q (omega (arith, enough))
                  fine.0 (print_statements-continues b ts) made_s last chunk code holding))
              (λ l k h₁.
                reads_rounds b compiler (suc fuel) rounds ts middle y after q
                  (omega (arith, enough)) (omega (arith, more)) fine.1 h made_b l k (code ++ x)
                  h₁)))
