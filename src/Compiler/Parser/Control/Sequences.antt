-- ===== src/Compiler/Parser/Control/Sequences.antt =====
-- The parts of the code of statements, and of their tokens.
use lox_vm.Prelude.{
  ℕ, ◌+◌, ◌≤◌, ◌≡◌, refl, sym, ap, ◌∙◌, inl, inr, Bool, true, false, ◌||◌, none, some, List, [],
  ◌++◌, append-nil, arith, if◌then◌else◌, Option-cases, length,
}
use lox_vm.Shared.Bytecode.{op_jump_if_false, op_jump}
use lox_vm.Compiler.Scanner.Tokens.{Token}
use lox_vm.Compiler.Parser.State.{Result, ok, ◌>>=◌, Compiler, ◌then◌}
use lox_vm.Compiler.Parser.Tokens.{token_code}
use lox_vm.Compiler.Parser.Scopes.{begin_scope, end_scope}
use lox_vm.Compiler.Parser.Grammar.{Generated, in_sequence}
use lox_vm.Compiler.Parser.Grammar.Reading.{readable, Leads}
use lox_vm.Compiler.Parser.Grammar.Writing.{some-pair}
use lox_vm.Compiler.Parser.Grammar.Shape.{nothing_made, sequence-some}
use lox_vm.Compiler.Parser.Control.{
  Statement, Statements, print_of, expression_of, nested, while_do, if_only, if_else, closed,
  followed, print_statements, statement_depth, jump_over, conditional, otherwise,
}
use lox_vm.Compiler.Parser.Control.Words.{
  print_statement_tree-Begins, continues, Begins-continues, Begins-readable,
}
use lox_vm.Compiler.Parser.Control.Scopes.{Quiet, end_scope-begin_scope}

pub Leads-scope :
    {m : Result Compiler} {compiler : Compiler} {tokens : List Token} {code constants : List ℕ}
    → Quiet compiler
    → Leads m (begin_scope compiler) tokens code constants
    → Leads (m >>= λ d. ok (end_scope d)) compiler tokens code constants
Leads-scope {compiler = compiler} {tokens = tokens} q l = record {
  last = l.last;
  chunk = l.chunk;
  ran =
      ap (λ r. r >>= λ d. ok (end_scope d)) l.ran
      ∙ ap ok (end_scope-begin_scope compiler l.last tokens l.chunk q);
  holding = l.holding;
}

pub neither :
    (a b : Bool) (x y : Result Compiler) → a ≡ false → b ≡ false → (if a || b then x else y) ≡ y
neither a b x y p q = rw (p, q) refl

pub statement_depth-positive : (s : Statement) → 1 ≤ statement_depth s
unfolding statement_depth
statement_depth-positive (print_of s e s₁) = omega arith
statement_depth-positive (expression_of e s) = omega arith
statement_depth-positive (nested s b) = omega arith
statement_depth-positive (while_do s s₁ e s₂ s₃ b) = omega arith
statement_depth-positive (if_only s s₁ e s₂ s₃ b) = omega arith
statement_depth-positive (if_else s s₁ e s₂ s₃ b s₄ s₅ d) = omega arith

pub print_statements-readable :
    (b : Statements) (ts : List Token) → readable (print_statements b ts) ≡ true
unfolding print_statements token_code
print_statements-readable (closed s) ts = refl
print_statements-readable (followed s b) ts =
    Begins-readable (print_statement_tree-Begins s (print_statements b ts))

pub print_statements-continues :
    (b : Statements) (ts : List Token) → continues (print_statements b ts) ≡ true
unfolding print_statements token_code
print_statements-continues (closed s) ts = refl
print_statements-continues (followed s b) ts =
    Begins-continues (print_statement_tree-Begins s (print_statements b ts))

-- The parts of a conditional code.
pub record Conditional (g : Generated) (f : List ℕ → Generated)
    (h : List ℕ → List ℕ → List ℕ → Generated) (bytes after : List ℕ) : Type 0 where
  pub c : List ℕ
  pub middle : List ℕ
  pub b : List ℕ
  pub middle' : List ℕ
  pub r : List ℕ
  pub made_c : g ≡ some (c, middle)
  pub made_b : f middle ≡ some (b, middle')
  pub made_r : h c b middle' ≡ some (r, after)
  pub joined : c ++ (jump_over op_jump_if_false (length b + 3) ++ (b ++ r)) ≡ bytes

pub conditional-parts :
    (g : Generated) (f : List ℕ → Generated) (h : List ℕ → List ℕ → List ℕ → Generated)
    (bytes after : List ℕ)
    → conditional g f h ≡ some (bytes, after)
    → Conditional g f h bytes after
conditional-parts none f h bytes after p = absurd (nothing_made p)
conditional-parts (some (c, middle)) f h bytes after p = elim (Option-cases (f middle)) [
  | inl q ↦ absurd (nothing_made (rw q at p))
  | inr ((b, middle'), q) ↦
      let p₁ = rw q at p in
      elim (Option-cases (h c b middle')) [
        | inl q₂ ↦ absurd (nothing_made (rw q₂ at p₁))
        | inr ((r, k), q₂) ↦
            let made = some-pair (rw q₂ at p₁) in
            record {
              c = c;
              middle = middle;
              b = b;
              middle' = middle';
              r = r;
              made_c = refl;
              made_b = q;
              made_r = q₂ ∙ ap (λ x. some (r, x)) made.1;
              joined = made.0;
            }
      ]
]

pub otherwise-parts :
    (f : List ℕ → Generated) (c b constants : List ℕ) {bytes after : List ℕ}
    → otherwise f c b constants ≡ some (bytes, after)
    → (d : List ℕ) × (f constants ≡ some (d, after)) × (jump_over op_jump (length d) ++ d ≡ bytes)
otherwise-parts f c b constants p = elim (Option-cases (f constants)) [
  | inl q ↦ absurd (nothing_made (rw q at p))
  | inr ((d, k), q) ↦
      let made = some-pair (rw q at p) in (d, q ∙ ap (λ x. some (d, x)) made.1, made.0)
]

pub appended-parts :
    (g : Generated) (f : List ℕ → Generated) {bytes after : List ℕ}
    → in_sequence g f [] ≡ some (bytes, after)
    → (x : List ℕ) × (middle : List ℕ) × (y : List ℕ) × (g ≡ some (x, middle))
      × (f middle ≡ some (y, after))
      × (x ++ y ≡ bytes)
appended-parts g f p =
    let (x, middle, y, made, made', joined) = sequence-some g f [] p in
    (x, middle, y, made, made', ap (λ ys. x ++ ys) (sym (append-nil y)) ∙ joined)
