-- ===== src/Compiler/Parser/Grammar/Shape.antt =====
-- What the table of the rules says of the tokens of trees, and what the parts of a generated code are.
use lox_vm.Prelude.{
  ℕ, suc, ◌+◌, ◌≤◌, ◌<◌, ◌≡◌, refl, ap, ◌∙◌, inl, inr, Bool, true, ◌&&◌, not, none, some, List, ◌∷◌,
  ◌++◌, append_assoc, arith, ltb, leb, Option-cases,
}
use lox_vm.Shared.Bytecode.{Bytecode}
use lox_vm.Compiler.Scanner.Tokens.{
  Token, TokenType, token_close_paren, token_close_brace, token_comma, token_minus, token_plus,
  token_semicolon, token_slash, token_star, token_bang_equal, token_equal_equal, token_greater,
  token_greater_equal, token_less, token_less_equal, token_eof, token_close_square, token_ampersand,
  token_bar, token_left_shift, token_right_shift, token_percentage,
}
use lox_vm.Compiler.Parser.Tokens.{token_code}
use lox_vm.Compiler.Parser.Rules.{
  prec_assignment, prec_unary, get_rule, unary_prefix, binary_suffix,
}
use lox_vm.Compiler.Parser.Grammar.{
  spelled, literal_false, literal_true, literal_nil, UnaryOperator, negation, complement,
  BinaryOperator, equal_to, not_equal, less, less_or_equal, greater, greater_or_equal, plus, minus,
  remainder, conjunction, disjunction, left_shift, right_shift, times, divided_by, Expr, constant,
  numeral, text_constant, name, group, array_size, unary_expr, binary_expr, unary_type, binary_type,
  binding, print_expr, level, Generated, bytes_of_all, followed_by, in_sequence, depth_of,
}
use lox_vm.Compiler.Parser.Grammar.Reading.{readable}
use lox_vm.Compiler.Parser.Grammar.Writing.{some-pair}
use lox_vm.Compiler.Parser.Grammar.Followers.{ends, ends-Stops}

-- the operators on the left edge of a tree, which one loop reads

abbrev pub spine : Expr → ℕ
spine (binary_expr o l s r) = suc (spine l)
spine _ = 0

abbrev pub precedence_of : Token → ℕ
precedence_of n = (get_rule n.type).precedence

pub binding-least : (o : BinaryOperator) → prec_assignment ≤ binding o
binding-least equal_to = omega arith
binding-least not_equal = omega arith
binding-least less = omega arith
binding-least less_or_equal = omega arith
binding-least greater = omega arith
binding-least greater_or_equal = omega arith
binding-least times = omega arith
binding-least divided_by = omega arith
binding-least _ = omega arith

pub level-least : (e : Expr) → prec_assignment ≤ level e
level-least (binary_expr o l s r) = binding-least o
level-least (constant l s) = omega arith
level-least (numeral s) = omega arith
level-least (text_constant s) = omega arith
level-least (name s) = omega arith
level-least (group s e s₁) = omega arith
level-least (array_size s s₁ e s₂) = omega arith
level-least (unary_expr o s e) = omega arith

pub ends-loose : (type : TokenType) → ends type ≡ true → (get_rule type).precedence < prec_unary
unfolding get_rule
ends-loose token_comma h = omega arith
ends-loose token_close_paren h = omega arith
ends-loose token_close_square h = omega arith
ends-loose token_close_brace h = omega arith
ends-loose token_semicolon h = omega arith
ends-loose token_eof h = omega arith
ends-loose token_minus h = omega arith
ends-loose token_percentage h = omega arith
ends-loose token_plus h = omega arith
ends-loose token_left_shift h = omega arith
ends-loose token_right_shift h = omega arith
ends-loose token_ampersand h = omega arith
ends-loose token_bar h = omega arith
ends-loose token_slash h = omega arith
ends-loose token_star h = omega arith
ends-loose token_bang_equal h = omega arith
ends-loose token_equal_equal h = omega arith
ends-loose token_greater h = omega arith
ends-loose token_greater_equal h = omega arith
ends-loose token_less h = omega arith
ends-loose token_less_equal h = omega arith
ends-loose _ h = absurd (ground arith)

pub precedence_of_operator :
    (o : BinaryOperator) → (get_rule (binary_type o)).precedence ≡ binding o
unfolding get_rule
precedence_of_operator equal_to = refl
precedence_of_operator not_equal = refl
precedence_of_operator less = refl
precedence_of_operator less_or_equal = refl
precedence_of_operator greater = refl
precedence_of_operator greater_or_equal = refl
precedence_of_operator plus = refl
precedence_of_operator minus = refl
precedence_of_operator remainder = refl
precedence_of_operator conjunction = refl
precedence_of_operator disjunction = refl
precedence_of_operator left_shift = refl
precedence_of_operator right_shift = refl
precedence_of_operator times = refl
precedence_of_operator divided_by = refl

pub suffix_of : (o : BinaryOperator) → (get_rule (binary_type o)).suffix ≡ binary_suffix
unfolding get_rule
suffix_of equal_to = refl
suffix_of not_equal = refl
suffix_of less = refl
suffix_of less_or_equal = refl
suffix_of greater = refl
suffix_of greater_or_equal = refl
suffix_of plus = refl
suffix_of minus = refl
suffix_of remainder = refl
suffix_of conjunction = refl
suffix_of disjunction = refl
suffix_of left_shift = refl
suffix_of right_shift = refl
suffix_of times = refl
suffix_of divided_by = refl

pub ends-binary : (o : BinaryOperator) → ends (binary_type o) ≡ true
ends-binary equal_to = refl
ends-binary not_equal = refl
ends-binary less = refl
ends-binary less_or_equal = refl
ends-binary greater = refl
ends-binary greater_or_equal = refl
ends-binary plus = refl
ends-binary minus = refl
ends-binary remainder = refl
ends-binary conjunction = refl
ends-binary disjunction = refl
ends-binary left_shift = refl
ends-binary right_shift = refl
ends-binary times = refl
ends-binary divided_by = refl

pub prefix_of : (o : UnaryOperator) → (get_rule (unary_type o)).prefix ≡ unary_prefix
unfolding get_rule
prefix_of negation = refl
prefix_of complement = refl

pub both : {a b : Bool} → (a && b) ≡ true → (a ≡ true) × (b ≡ true)
both {a} {b} h = (ground (arith, h), ground (arith, h))

pub leb-≤ : {a b : ℕ} → leb a b ≡ true → a ≤ b
leb-≤ {a} {b} h = ground (arith, h)

pub ltb-< : {a b : ℕ} → ltb a b ≡ true → a < b
ltb-< {a} {b} h = ground (arith, h)

pub nothing_made : {bytes after : List ℕ} → ¬ (◌≡◌ {A = Generated} none (some (bytes, after)))
nothing_made p = absurd (ground arith)

-- The code of the left operand, then that of the right one behind its constants, and the operator.
pub sequence-some :
    (g : Generated) (f : List ℕ → Generated) (ops : List Bytecode) {bytes after : List ℕ}
    → in_sequence g f ops ≡ some (bytes, after)
    → (left : List ℕ) × (middle : List ℕ) × (right : List ℕ) × (g ≡ some (left, middle))
      × (f middle ≡ some (right, after))
      × (left ++ (right ++ bytes_of_all ops) ≡ bytes)
sequence-some none f ops h = absurd (ground arith)
sequence-some (some (left, middle)) f ops h = elim (Option-cases (f middle)) [
  | inl p ↦ absurd (nothing_made (rw p at h))
  | inr ((right, k), p) ↦
      let made = some-pair (rw p at h) in
      (left, middle, right, refl, p ∙ ap (λ x. some (right, x)) made.1, made.0)
]

pub followed_by-some :
    (g : Generated) (ops : List Bytecode) {bytes after : List ℕ}
    → followed_by g ops ≡ some (bytes, after)
    → (inner : List ℕ) × (g ≡ some (inner, after)) × (inner ++ bytes_of_all ops ≡ bytes)
followed_by-some none ops h = absurd (ground arith)
followed_by-some (some (inner, k)) ops h =
    (inner, ap (λ x. some (inner, x)) (some-pair h).1, (some-pair h).0)

pub readable-ends :
    (n : Token) (rest : List Token) → ends n.type ≡ true → readable (n ∷ rest) ≡ true
readable-ends n rest closes = ap not (ends-Stops n.type closes).no_error

-- A tree begins with a token that is not an error.
pub readable-print_expr : (e : Expr) (ts : List Token) → readable (print_expr e ++ ts) ≡ true
unfolding print_expr token_code
readable-print_expr (constant literal_false s) ts = refl
readable-print_expr (constant literal_true s) ts = refl
readable-print_expr (constant literal_nil s) ts = refl
readable-print_expr (numeral s) ts = refl
readable-print_expr (text_constant s) ts = refl
readable-print_expr (name s) ts = refl
readable-print_expr (group s e s₁) ts = refl
readable-print_expr (array_size s s₁ e s₂) ts = refl
readable-print_expr (unary_expr negation s e) ts = refl
readable-print_expr (unary_expr complement s e) ts = refl
readable-print_expr (binary_expr o l s r) ts =
    rw (append_assoc (print_expr l) (spelled (binary_type o) s ∷ print_expr r) ts)
      (readable-print_expr l (spelled (binary_type o) s ∷ (print_expr r ++ ts)))

pub spine-depth : (e : Expr) → spine e + 2 ≤ depth_of e
unfolding depth_of
spine-depth (binary_expr o l s r) = omega (arith, spine-depth l, spine-depth r)
spine-depth (constant l s) = omega arith
spine-depth (numeral s) = omega arith
spine-depth (text_constant s) = omega arith
spine-depth (name s) = omega arith
spine-depth (group s e s₁) = omega (arith, spine-depth e)
spine-depth (array_size s s₁ e s₂) = omega (arith, spine-depth e)
spine-depth (unary_expr o s e) = omega (arith, spine-depth e)

pub operand_depth : {a b : ℕ} → suc a ≤ suc b → a ≤ b
operand_depth h = omega (arith, h)
