-- ===== src/Compiler/Parser/Control/Words.antt =====
-- The words that statements of bytecode_compiler.c begin with, and those that they do not.
use lox_vm.Prelude.{
  ◌≡◌, refl, ap, Bool, true, false, ◌&&◌, not, List, [], ◌∷◌, ◌++◌, append_assoc, arith, ◌==◌,
}
use lox_vm.Compiler.Scanner.Tokens.{
  Token, TokenType, token_open_paren, token_open_brace, token_close_brace, token_minus,
  token_semicolon, token_bang, token_identifier, token_string, token_number, token_else,
  token_false, token_for, token_fun, token_if, token_nil, token_print, token_return, token_true,
  token_var, token_while, token_error, token_eof, token_struct, token_const, token_pub,
  token_parallel, token_sync, token_inline, token_len,
}
use lox_vm.Compiler.Parser.Tokens.{token_code}
use lox_vm.Compiler.Parser.Grammar.{
  spelled, literal_false, literal_true, literal_nil, negation, complement, Expr, constant, numeral,
  text_constant, name, group, array_size, unary_expr, binary_expr, binary_type, print_expr,
}
use lox_vm.Compiler.Parser.Grammar.Reading.{readable}
use lox_vm.Compiler.Parser.Grammar.Followers.{none_of}
use lox_vm.Compiler.Parser.Grammar.Shape.{both}
use lox_vm.Compiler.Parser.Control.{
  Statement, print_of, expression_of, nested, while_do, if_only, if_else, print_statement_tree,
}

-- The first tokens of expressions, and of the statements that begin with a word or a brace.
abbrev pub begins_expression : TokenType → Bool
begins_expression token_false = true
begins_expression token_true = true
begins_expression token_nil = true
begins_expression token_number = true
begins_expression token_string = true
begins_expression token_identifier = true
begins_expression token_open_paren = true
begins_expression token_len = true
begins_expression token_minus = true
begins_expression token_bang = true
begins_expression _ = false

abbrev pub begins_statement : TokenType → Bool
begins_statement token_print = true
begins_statement token_open_brace = true
begins_statement token_while = true
begins_statement token_if = true
begins_statement type = begins_expression type

abbrev pub is : TokenType → TokenType → Bool
is type k = token_code type == token_code k

pub record NoStatementWord (type : TokenType) : Type 0 where
  pub no_print : is type token_print ≡ false
  pub no_brace : is type token_open_brace ≡ false
  pub no_for : is type token_for ≡ false
  pub no_while : is type token_while ≡ false
  pub no_if : is type token_if ≡ false
  pub no_return : is type token_return ≡ false
  pub no_sync : is type token_sync ≡ false

pub record NoDeclarationWord (type : TokenType) : Type 0 where
  pub no_pub : is type token_pub ≡ false
  pub no_const : is type token_const ≡ false
  pub no_var : is type token_var ≡ false
  pub no_struct : is type token_struct ≡ false
  pub no_parallel : is type token_parallel ≡ false
  pub no_inline : is type token_inline ≡ false
  pub no_fun : is type token_fun ≡ false
  pub no_close : is type token_close_brace ≡ false
  pub no_eof : is type token_eof ≡ false
  pub no_error : is type token_error ≡ false
  pub no_else : is type token_else ≡ false

abbrev statement_words : List TokenType
statement_words =
    token_print ∷ token_open_brace ∷ token_for ∷ token_while ∷ token_if ∷ token_return ∷ token_sync
    ∷ []

begins_expression-none_of :
    (type : TokenType) → begins_expression type ≡ true → none_of statement_words type ≡ true
unfolding token_code
begins_expression-none_of token_false h = refl
begins_expression-none_of token_true h = refl
begins_expression-none_of token_nil h = refl
begins_expression-none_of token_number h = refl
begins_expression-none_of token_string h = refl
begins_expression-none_of token_identifier h = refl
begins_expression-none_of token_open_paren h = refl
begins_expression-none_of token_len h = refl
begins_expression-none_of token_minus h = refl
begins_expression-none_of token_bang h = refl
begins_expression-none_of _ h = absurd (ground arith)

pub begins_expression-NoStatementWord :
    (type : TokenType) → begins_expression type ≡ true → NoStatementWord type
begins_expression-NoStatementWord type h =
    let all = begins_expression-none_of type h in
    record {
      no_print = ground (arith, all);
      no_brace = ground (arith, all);
      no_for = ground (arith, all);
      no_while = ground (arith, all);
      no_if = ground (arith, all);
      no_return = ground (arith, all);
      no_sync = ground (arith, all);
    }

abbrev other_words : List TokenType
other_words =
    token_pub ∷ token_const ∷ token_var ∷ token_struct ∷ token_parallel ∷ token_inline ∷ token_fun
    ∷ token_close_brace ∷ token_eof ∷ token_error ∷ token_else ∷ []

begins_statement-none_of :
    (type : TokenType) → begins_statement type ≡ true → none_of other_words type ≡ true
unfolding token_code
begins_statement-none_of token_false h = refl
begins_statement-none_of token_true h = refl
begins_statement-none_of token_nil h = refl
begins_statement-none_of token_number h = refl
begins_statement-none_of token_string h = refl
begins_statement-none_of token_identifier h = refl
begins_statement-none_of token_open_paren h = refl
begins_statement-none_of token_len h = refl
begins_statement-none_of token_minus h = refl
begins_statement-none_of token_bang h = refl
begins_statement-none_of token_print h = refl
begins_statement-none_of token_open_brace h = refl
begins_statement-none_of token_while h = refl
begins_statement-none_of token_if h = refl
begins_statement-none_of _ h = absurd (ground arith)

pub begins_statement-NoDeclarationWord :
    (type : TokenType) → begins_statement type ≡ true → NoDeclarationWord type
begins_statement-NoDeclarationWord type h =
    let all = begins_statement-none_of type h in
    record {
      no_pub = ground (arith, all);
      no_const = ground (arith, all);
      no_var = ground (arith, all);
      no_struct = ground (arith, all);
      no_parallel = ground (arith, all);
      no_inline = ground (arith, all);
      no_fun = ground (arith, all);
      no_close = ground (arith, all);
      no_eof = ground (arith, all);
      no_error = ground (arith, all);
      no_else = ground (arith, all);
    }

pub begins_expression-begins_statement :
    (type : TokenType) → begins_expression type ≡ true → begins_statement type ≡ true
begins_expression-begins_statement token_false h = refl
begins_expression-begins_statement token_true h = refl
begins_expression-begins_statement token_nil h = refl
begins_expression-begins_statement token_number h = refl
begins_expression-begins_statement token_string h = refl
begins_expression-begins_statement token_identifier h = refl
begins_expression-begins_statement token_open_paren h = refl
begins_expression-begins_statement token_len h = refl
begins_expression-begins_statement token_minus h = refl
begins_expression-begins_statement token_bang h = refl
begins_expression-begins_statement _ h = absurd (ground arith)

-- The first token of some tokens.
pub record Begins (p : TokenType → Bool) (tokens : List Token) : Type 0 where
  pub first : Token
  pub others : List Token
  pub tokens_are : tokens ≡ first ∷ others
  pub begins : p first.type ≡ true

pub print_expr-Begins : (e : Expr) (ts : List Token) → Begins begins_expression (print_expr e ++ ts)
unfolding print_expr
print_expr-Begins (constant literal_false s) ts = record {
  first = _;
  others = _;
  tokens_are = refl;
  begins = refl;
}
print_expr-Begins (constant literal_true s) ts = record {
  first = _;
  others = _;
  tokens_are = refl;
  begins = refl;
}
print_expr-Begins (constant literal_nil s) ts = record {
  first = _;
  others = _;
  tokens_are = refl;
  begins = refl;
}
print_expr-Begins (numeral s) ts = record {
  first = _;
  others = _;
  tokens_are = refl;
  begins = refl;
}
print_expr-Begins (text_constant s) ts = record {
  first = _;
  others = _;
  tokens_are = refl;
  begins = refl;
}
print_expr-Begins (name s) ts = record { first = _; others = _; tokens_are = refl; begins = refl }
print_expr-Begins (group s e s₁) ts = record {
  first = _;
  others = _;
  tokens_are = refl;
  begins = refl;
}
print_expr-Begins (array_size s s₁ e s₂) ts = record {
  first = _;
  others = _;
  tokens_are = refl;
  begins = refl;
}
print_expr-Begins (unary_expr negation s e) ts = record {
  first = _;
  others = _;
  tokens_are = refl;
  begins = refl;
}
print_expr-Begins (unary_expr complement s e) ts = record {
  first = _;
  others = _;
  tokens_are = refl;
  begins = refl;
}
print_expr-Begins (binary_expr o l s r) ts =
    rw (append_assoc (print_expr l) (spelled (binary_type o) s ∷ print_expr r) ts)
      (print_expr-Begins l (spelled (binary_type o) s ∷ (print_expr r ++ ts)))

pub print_statement_tree-Begins :
    (s : Statement) (ts : List Token) → Begins begins_statement (print_statement_tree s ts)
unfolding print_statement_tree
print_statement_tree-Begins (print_of s e s₁) ts = record {
  first = _;
  others = _;
  tokens_are = refl;
  begins = refl;
}
print_statement_tree-Begins (expression_of e s) ts =
    let b = print_expr-Begins e (spelled token_semicolon s ∷ ts) in
    record {
      first = b.first;
      others = b.others;
      tokens_are = b.tokens_are;
      begins = begins_expression-begins_statement b.first.type b.begins;
    }
print_statement_tree-Begins (nested s b) ts = record {
  first = _;
  others = _;
  tokens_are = refl;
  begins = refl;
}
print_statement_tree-Begins (while_do s s₁ e s₂ s₃ b) ts = record {
  first = _;
  others = _;
  tokens_are = refl;
  begins = refl;
}
print_statement_tree-Begins (if_only s s₁ e s₂ s₃ b) ts = record {
  first = _;
  others = _;
  tokens_are = refl;
  begins = refl;
}
print_statement_tree-Begins (if_else s s₁ e s₂ s₃ b s₄ s₅ d) ts = record {
  first = _;
  others = _;
  tokens_are = refl;
  begins = refl;
}

-- What may follow a statement: neither an error nor another branch.
abbrev pub continues : List Token → Bool
continues [] = false
continues (t ∷ ts) = not (is t.type token_error) && not (is t.type token_else)

pub continues-readable : (tokens : List Token) → continues tokens ≡ true → readable tokens ≡ true
continues-readable [] h = absurd (ground arith)
continues-readable (t ∷ ts) h =
    (both {a = not (is t.type token_error)} {b = not (is t.type token_else)} h).0

pub Begins-continues :
    {tokens : List Token} → Begins begins_statement tokens → continues tokens ≡ true
Begins-continues b =
    let n = begins_statement-NoDeclarationWord b.first.type b.begins in
    rw b.tokens_are (rw (n.no_error, n.no_else) refl)

pub Begins-readable :
    {tokens : List Token} → Begins begins_statement tokens → readable tokens ≡ true
Begins-readable b =
    rw b.tokens_are (ap not (begins_statement-NoDeclarationWord b.first.type b.begins).no_error)
