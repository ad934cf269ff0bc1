-- ===== src/Compiler/Parser/Control/Branches.antt =====
-- Conditions, branches and loops around blocks that are read.
use lox_vm.Prelude.{
  ℕ, ◌+◌, ◌/◌, ◌%◌, ◌≤◌, String, ◌≡◌, refl, sym, ap, ◌∙◌, true, some, List, [], ◌∷◌, ◌++◌,
  append_assoc, arith, length, length-append,
}
use lox_vm.Shared.Bytecode.{op_jump_if_false, op_jump, op_loop}
use lox_vm.Compiler.Scanner.Tokens.{Token, token_open_paren, token_close_paren, token_else}
use lox_vm.Compiler.Chunk.{Chunk}
use lox_vm.Compiler.Parser.State.{ok, ◌>>=◌, Compiler, Services, Step}
use lox_vm.Compiler.Parser.Tokens.{consume}
use lox_vm.Compiler.Parser.Emit.{emit_loop}
use lox_vm.Compiler.Parser.Rules.{prec_assignment, get_rule}
use lox_vm.Compiler.Parser.Variables.{expression}
use lox_vm.Compiler.Parser.Grammar.{
  Spelling, spelled, Expr, print_expr, well_bracketed, byte_of, generate, depth_of, names,
}
use lox_vm.Compiler.Parser.Grammar.Reading.{
  reading, readable, Holding, Leads, Leads-bind, Leads-code,
}
use lox_vm.Compiler.Parser.Grammar.Shape.{level-least, readable-print_expr}
use lox_vm.Compiler.Parser.Grammar.Parts.{whole, consume-Leads}
use lox_vm.Compiler.Parser.Grammar.Reads.{prefix}
use lox_vm.Compiler.Parser.Statements.{on_match, whole_expression, while_statement, if_statement}
use lox_vm.Compiler.Parser.Grammar.Jumps.{emit_jump-Jumped, in_use-length, patch_jump_here-Leads}
use lox_vm.Compiler.Parser.Control.{condition_tokens, jump_over}
use lox_vm.Compiler.Parser.Control.Scopes.{
  Holding-code, Jumped-bind, front_of, emit_loop-Leads, looped,
}

module _ (services : Services) (compiler : Compiler) (fuel : ℕ) where
  -- The parentheses of a condition, and what comes behind it.
  pub condition-Leads :
      (e : Expr) (s s₁ : Spelling) (prev : Token) (message message' : String) (ts ts' : List Token)
      (chunk : Chunk) {code constants bytes after code' constants' : List ℕ} (f : Step)
      → depth_of e ≤ fuel
      → well_bracketed e ≡ true
      → readable ts ≡ true
      → Holding chunk code constants
      → generate services (names compiler) e constants ≡ some (bytes, after)
      → ((last : Token) (chunk' : Chunk)
          → Holding chunk' (code ++ bytes) after
          → Leads (f (reading compiler last ts chunk')) compiler ts' code' constants')
      → Leads
          (consume token_open_paren message
              (reading compiler prev (condition_tokens s e s₁ ts) chunk)
            >>= λ c₁. whole_expression services fuel c₁ >>= λ c₂.
                consume token_close_paren message' c₂ >>= f)
          compiler
          ts'
          code'
          constants'
  unfolding whole_expression expression get_rule
  condition-Leads e s s₁ prev message message' ts ts' chunk {code} {constants} {bytes} {after} f
        enough bracketed h holding made next =
      Leads-bind {tokens = print_expr e ++ spelled token_close_paren s₁ ∷ ts} _
        (consume-Leads services compiler token_open_paren s message prev _ chunk holding
          (readable-print_expr e (spelled token_close_paren s₁ ∷ ts)))
        (λ l₁ k₁ h₁.
          Leads-bind {tokens = spelled token_close_paren s₁ ∷ ts} _
            (whole services compiler e (prefix services compiler e) prec_assignment fuel l₁
              (spelled token_close_paren s₁) ts k₁ code constants bytes after enough (level-least e)
              (omega arith) refl (omega arith) bracketed h₁ made)
            (λ l₂ k₂ h₂.
              Leads-bind {tokens = ts} f
                (consume-Leads services compiler token_close_paren s₁ message' l₂ ts k₂ h₂ h) next))

  -- A step that reads some tokens up to others, and appends code, wherever it stands.
  abbrev pub ReadsCode : Step → List Token → List Token → List ℕ → List ℕ → List ℕ → Type 0
  ReadsCode f tokens ts bytes constants after =
      (last : Token) (chunk : Chunk) (code : List ℕ)
      → Holding chunk code constants
      → Leads (f (reading compiler last tokens chunk)) compiler ts (code ++ bytes) after

  patched :
      (code b d : List ℕ) (op op' x y : ℕ)
      → ((code ++ op ∷ []) ++ x ∷ y ∷ (b ++ op' ∷ 0 ∷ 0 ∷ [])) ++ d
        ≡ (code ++ op ∷ x ∷ y ∷ (b ++ op' ∷ [])) ++ 0 ∷ 0 ∷ d
  patched code b d op op' x y = simp append_assoc

  joined :
      (code c b d : List ℕ) (op x y op' x' y' : ℕ)
      → ((code ++ c) ++ op ∷ x ∷ y ∷ (b ++ op' ∷ [])) ++ x' ∷ y' ∷ d
        ≡ code ++ (c ++ op ∷ x ∷ y ∷ (b ++ op' ∷ x' ∷ y' ∷ d))
  joined code c b d op x y op' x' y' = simp append_assoc

  module _ (statement declaration : Step) where
    -- The distance over the branch that is taken counts the jump at its end, whose own distance is that
    -- over the other branch.
    pub if_statement-Leads :
        (e : Expr) (s s₁ : Spelling) (prev : Token) (then_tokens else_tokens ts : List Token)
        (chunk : Chunk) (code constants c middle b middle' d after : List ℕ)
        → depth_of e ≤ fuel
        → well_bracketed e ≡ true
        → readable then_tokens ≡ true
        → Holding chunk code constants
        → generate services (names compiler) e constants ≡ some (c, middle)
        → ReadsCode statement then_tokens else_tokens b middle middle'
        → ReadsCode (on_match token_else statement ok) else_tokens ts d middle' after
        → Leads
            (if_statement services fuel statement declaration
              (reading compiler prev (condition_tokens s e s₁ then_tokens) chunk))
            compiler
            ts
            (code
              ++ (c
                  ++ (jump_over op_jump_if_false (length b + 3)
                      ++ (b ++ (jump_over op_jump (length d) ++ d)))))
            after
    unfolding if_statement
    if_statement-Leads e s s₁ prev then_tokens else_tokens ts chunk code constants c middle b
          middle' d after enough bracketed h holding made taken other =
        let front = (code ++ c) ++ byte_of op_jump_if_false ∷ [] in
        let body = b ++ byte_of op_jump ∷ 0 ∷ 0 ∷ [] in
        let size : length body ≡ length b + 3 = length-append b (byte_of op_jump ∷ 0 ∷ 0 ∷ []) in
        let front' =
          (code ++ c)
          ++ byte_of op_jump_if_false
            ∷ length body % 256
            ∷ length body / 256 % 256
            ∷ (b ++ byte_of op_jump ∷ []) in
        let jif = byte_of op_jump_if_false in
        let jmp = byte_of op_jump in
        let whole_code =
          joined code c b d jif (length body % 256) (length body / 256 % 256) jmp (length d % 256)
            (length d / 256 % 256)
          ∙ ap
              (λ n.
                code
                ++ (c
                    ++ jif
                      ∷ n % 256
                      ∷ n / 256 % 256
                      ∷ (b ++ jmp ∷ length d % 256 ∷ length d / 256 % 256 ∷ d)))
              size in
        let place : length (((code ++ c) ++ jif ∷ 0 ∷ 0 ∷ []) ++ b) + 1 ≡ length front' = omega (
          arith,
          length-append ((code ++ c) ++ jif ∷ 0 ∷ 0 ∷ []) b,
          length-append (code ++ c) (jif ∷ 0 ∷ 0 ∷ []),
          length-append (code ++ c)
              (jif ∷ length body % 256 ∷ length body / 256 % 256 ∷ (b ++ jmp ∷ [])),
          length-append b (jmp ∷ []),
        ) in
        condition-Leads e s s₁ prev "Expect '(' after if." "Expect ')' after jump_to_operand."
          then_tokens ts chunk _ enough bracketed h holding made
          (λ l₃ k₃ h₃.
            Jumped-bind _ (emit_jump-Jumped compiler op_jump_if_false l₃ then_tokens k₃ h₃)
              (λ l₄ k₄ h₄. Leads-bind {tokens = else_tokens} _ (taken l₄ k₄ _ h₄) (λ l₅ k₅ h₅.
                Jumped-bind _ (emit_jump-Jumped compiler op_jump l₅ else_tokens k₅ h₅) (λ l₆ k₆ h₆.
                  Leads-bind {tokens = else_tokens} _
                    (patch_jump_here-Leads compiler l₆ else_tokens k₆ _ front body
                      (Holding-code
                        (front_of (code ++ c) b (byte_of op_jump_if_false) (byte_of op_jump)) h₆)
                      (sym (length-append (code ++ c) (byte_of op_jump_if_false ∷ []))))
                    (λ l₇ k₇ h₇. Leads-bind {tokens = ts} _ (other l₇ k₇ _ h₇) (λ l₈ k₈ h₈.
                      Leads-code whole_code (
                        patch_jump_here-Leads compiler l₈ ts k₈ _ front' d
                          (Holding-code
                            (patched (code ++ c) b d (byte_of op_jump_if_false) (byte_of op_jump) _
                              _)
                            h₈)
                          place)))))))

    -- The distance back counts the condition, its jump, the body, and the jump back itself.
    pub while_statement-Leads :
        (e : Expr) (s s₁ : Spelling) (prev : Token) (tokens ts : List Token) (chunk : Chunk)
        (code constants c middle b after : List ℕ)
        → depth_of e ≤ fuel
        → well_bracketed e ≡ true
        → readable tokens ≡ true
        → Holding chunk code constants
        → generate services (names compiler) e constants ≡ some (c, middle)
        → ReadsCode statement tokens ts b middle after
        → Leads
            (while_statement services fuel statement declaration
              (reading compiler prev (condition_tokens s e s₁ tokens) chunk))
            compiler
            ts
            (code
              ++ (c
                  ++ (jump_over op_jump_if_false (length b + 3)
                      ++ (b ++ jump_over op_loop (length c + length b + 6)))))
            after
    unfolding while_statement emit_loop
    while_statement-Leads e s s₁ prev tokens ts chunk code constants c middle b after enough
          bracketed h holding made taken =
        let jif = byte_of op_jump_if_false in
        let front = (code ++ c) ++ jif ∷ [] in
        let back = length c + length b + 6 in
        let body = b ++ jump_over op_loop back in
        let size : length body ≡ length b + 3 = length-append b (jump_over op_loop back) in
        let whole_code =
          append_assoc (code ++ c) (jif ∷ []) _
          ∙ append_assoc code c _
          ∙ ap (λ n. code ++ (c ++ jif ∷ n % 256 ∷ n / 256 % 256 ∷ body)) size in
        let at_start = in_use-length holding in
        let at_end : length (((code ++ c) ++ jif ∷ 0 ∷ 0 ∷ []) ++ b)
            ≡ length code + length c + 3 + length b =
          omega (
            arith,
            length-append ((code ++ c) ++ jif ∷ 0 ∷ 0 ∷ []) b,
            length-append (code ++ c) (jif ∷ 0 ∷ 0 ∷ []),
            length-append code c,
          ) in
        condition-Leads e s s₁ prev "Expect '(' after while declaration."
          "Expect ')' after while declaration." tokens ts chunk _ enough bracketed h holding made
          (λ l₃ k₃ h₃.
            Jumped-bind _ (emit_jump-Jumped compiler op_jump_if_false l₃ tokens k₃ h₃) (λ l₄ k₄ h₄.
              Leads-bind {tokens = ts} _ (taken l₄ k₄ _ h₄) (λ l₅ k₅ h₅.
                Leads-bind {tokens = ts} _
                  (emit_loop-Leads compiler l₅ ts k₅ chunk.in_use back h₅
                    (omega (arith, at_start, at_end)) (omega (arith, at_start, at_end)))
                  (λ l₇ k₇ h₇. Leads-code whole_code (
                    patch_jump_here-Leads compiler l₇ ts k₇ _ front body
                      (Holding-code
                        (looped (code ++ c) b jif (byte_of op_loop) (back % 256) (back / 256 % 256))
                        h₇)
                      (sym (length-append (code ++ c) (jif ∷ []))))))))
