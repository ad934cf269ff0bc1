-- ===== src/Compiler/Parser/Grammar.antt =====
-- Expressions without assignments, calls and fields, as trees, the tokens that they are written with, and the
-- code that the tree stands for: the reference that the parser is compared with.
pub mod Reading
pub mod Writing
pub mod Followers
pub mod Atoms
pub mod Shape
pub mod Parts
pub mod Reads
pub mod Jumps
use lox_vm.Prelude.{
  ◌>>=◌, ℕ, suc, ◌+◌, ◌-◌, ◌/◌, ◌%◌, ◌^◌, Bool, true, ◌&&◌, ◌||◌, not, Option, none, some, List, [],
  ◌∷◌, ◌++◌, ltb, leb, if◌then◌else◌, length, take, drop,
}
use lox_vm.Shared.Bytecode.{
  Bytecode, op_constant, op_nil, op_true, op_false, op_equal, op_greater, op_less, op_negate,
  op_add, op_sub, op_get_global, op_get_local, op_mul, op_div, op_not, op_fast_const_8,
  op_fast_const_16, op_const_1, op_const_2, op_binary_op_and, op_binary_op_or, op_left_shift,
  op_right_shift, op_modulo, op_get_array_length, opcode,
}
use lox_vm.Compiler.Scanner.Tokens.{
  Token, TokenType, token_open_paren, token_close_paren, token_minus, token_plus, token_slash,
  token_star, token_bang, token_bang_equal, token_equal_equal, token_greater, token_greater_equal,
  token_less, token_less_equal, token_identifier, token_string, token_number, token_false,
  token_nil, token_true, token_ampersand, token_bar, token_left_shift, token_right_shift,
  token_percentage, token_len,
}
use lox_vm.Compiler.Parser.State.{Local, Compiler, Services, ◌then◌}
use lox_vm.Compiler.Parser.Emit.{text}
use lox_vm.Compiler.Parser.Scopes.{resolve_in}
use lox_vm.Compiler.Parser.Variables.{is_being_defined}
use lox_vm.Compiler.Parser.Expressions.{string_contains}
use lox_vm.Compiler.Parser.Rules.{
  prec_equality, prec_comparison, prec_term, prec_factor, prec_unary,
}

-- The text and the line of a token, whose type the tree knows.
pub record Spelling : Type 0 where
  pub start : List ℕ
  pub length : ℕ
  pub line : ℕ

abbrev pub spelled : TokenType → Spelling → Token
spelled type s = record { type = type; start = s.start; length = s.length; line = s.line }

pub data Literal : Type 0 where
  literal_false literal_true literal_nil : Literal

pub data UnaryOperator : Type 0 where
  negation complement : UnaryOperator

pub data BinaryOperator : Type 0 where
  equal_to not_equal less less_or_equal greater greater_or_equal : BinaryOperator
  plus minus remainder conjunction disjunction left_shift right_shift : BinaryOperator
  times divided_by : BinaryOperator

pub data Expr : Type 0 where
  constant : Literal → Spelling → Expr
  numeral text_constant name : Spelling → Expr
  group : Spelling → Expr → Spelling → Expr
  array_size : Spelling → Spelling → Expr → Spelling → Expr
  unary_expr : UnaryOperator → Spelling → Expr → Expr
  binary_expr : BinaryOperator → Expr → Spelling → Expr → Expr

abbrev pub literal_type : Literal → TokenType
literal_type literal_false = token_false
literal_type literal_true = token_true
literal_type literal_nil = token_nil

abbrev pub unary_type : UnaryOperator → TokenType
unary_type negation = token_minus
unary_type complement = token_bang

abbrev pub binary_type : BinaryOperator → TokenType
binary_type equal_to = token_equal_equal
binary_type not_equal = token_bang_equal
binary_type less = token_less
binary_type less_or_equal = token_less_equal
binary_type greater = token_greater
binary_type greater_or_equal = token_greater_equal
binary_type plus = token_plus
binary_type minus = token_minus
binary_type remainder = token_percentage
binary_type conjunction = token_ampersand
binary_type disjunction = token_bar
binary_type left_shift = token_left_shift
binary_type right_shift = token_right_shift
binary_type times = token_star
binary_type divided_by = token_slash

-- How tightly the operators bind: equality, then comparison, then sums, with the bitwise operators, the
-- shifts and the remainder among them, then products.
abbrev pub binding : BinaryOperator → ℕ
binding equal_to = prec_equality
binding not_equal = prec_equality
binding less = prec_comparison
binding less_or_equal = prec_comparison
binding greater = prec_comparison
binding greater_or_equal = prec_comparison
binding times = prec_factor
binding divided_by = prec_factor
binding _ = prec_term

unfoldable pub print_expr : Expr → List Token
print_expr (constant l s) = spelled (literal_type l) s ∷ []
print_expr (numeral s) = spelled token_number s ∷ []
print_expr (text_constant s) = spelled token_string s ∷ []
print_expr (name s) = spelled token_identifier s ∷ []
print_expr (group s e s₁) =
    spelled token_open_paren s ∷ (print_expr e ++ spelled token_close_paren s₁ ∷ [])
print_expr (array_size s s₁ e s₂) =
    spelled token_len s
    ∷ spelled token_open_paren s₁
    ∷ (print_expr e ++ spelled token_close_paren s₂ ∷ [])
print_expr (unary_expr o s e) = spelled (unary_type o) s ∷ print_expr e
print_expr (binary_expr o l s r) = print_expr l ++ spelled (binary_type o) s ∷ print_expr r

-- The precedence of the outermost operator.
abbrev pub level : Expr → ℕ
level (binary_expr o l s r) = binding o
level _ = prec_unary

-- The tree is the one that its tokens are read as, without parentheses that are not in it: the left operand
-- binds at least as tightly as the operator, and the right one and that of a prefix more tightly.
unfoldable pub well_bracketed : Expr → Bool
well_bracketed (group s e s₁) = well_bracketed e
well_bracketed (array_size s s₁ e s₂) = well_bracketed e
well_bracketed (unary_expr o s e) = leb prec_unary (level e) && well_bracketed e
well_bracketed (binary_expr o l s r) =
    leb (binding o) (level l)
    && (ltb (binding o) (level r) && (well_bracketed l && well_bracketed r))
well_bracketed _ = true

-- The code of a tree behind a table of constants, and the table after it.
abbrev pub Generated : Type 0
Generated = Option (List ℕ × List ℕ)

abbrev pub byte_of : Bytecode → ℕ
byte_of op = opcode op % 2 ^ 8

abbrev pub bytes_of_all : List Bytecode → List ℕ
bytes_of_all [] = []
bytes_of_all (op ∷ ops) = byte_of op ∷ bytes_of_all ops

-- An instruction whose operand is the place of a new constant.
abbrev pub with_constant : Bytecode → ℕ → List ℕ → Generated
with_constant op value constants =
    if ltb (length constants) 255
    then some (byte_of op ∷ length constants ∷ [], constants ++ value ∷ [])
    else none

abbrev pub followed_by : Generated → List Bytecode → Generated
followed_by g ops = g >>= λ r. some (r.0 ++ bytes_of_all ops, r.1)

-- The code of the left operand, then that of the right one behind its constants, then the operator.
abbrev pub in_sequence : Generated → (List ℕ → Generated) → List Bytecode → Generated
in_sequence g f ops = g >>= λ a. f a.1 >>= λ b. some (a.0 ++ (b.0 ++ bytes_of_all ops), b.1)

abbrev pub operator_code : BinaryOperator → List Bytecode
operator_code equal_to = op_equal ∷ []
operator_code not_equal = op_equal ∷ op_not ∷ []
operator_code less = op_less ∷ []
operator_code less_or_equal = op_greater ∷ op_not ∷ []
operator_code greater = op_greater ∷ []
operator_code greater_or_equal = op_less ∷ op_not ∷ []
operator_code plus = op_add ∷ []
operator_code minus = op_sub ∷ []
operator_code remainder = op_modulo ∷ []
operator_code conjunction = op_binary_op_and ∷ []
operator_code disjunction = op_binary_op_or ∷ []
operator_code left_shift = op_left_shift ∷ []
operator_code right_shift = op_right_shift ∷ []
operator_code times = op_mul ∷ []
operator_code divided_by = op_div ∷ []

abbrev pub prefix_code : UnaryOperator → List Bytecode
prefix_code negation = op_negate ∷ []
prefix_code complement = op_not ∷ []

abbrev pub constant_code : Literal → Bytecode
constant_code literal_false = op_false
constant_code literal_true = op_true
constant_code literal_nil = op_nil

-- The shortest instruction that has room for the number, and a constant for all else.
unfoldable pub numeral_code : Services → Spelling → List ℕ → Generated
unfolding string_contains
numeral_code services s constants =
    let value = services.strtod s.start in
    let small = services.double_at_most value 127 in
    if string_contains (take s.length s.start) b'.'
      || not small && not (services.double_at_most value 32767)
    then with_constant op_constant value constants
    else if services.double_equals value 1
    then some (byte_of op_const_1 ∷ [], constants)
    else if services.double_equals value 2
    then some (byte_of op_const_2 ∷ [], constants)
    else if small
    then some (byte_of op_fast_const_8 ∷ services.double_to_int value % 256 ∷ [], constants)
    else some (
      byte_of op_fast_const_16
          ∷ services.double_to_int value % 256
          ∷ services.double_to_int value / 2 ^ 8 % 256
          ∷ [],
      constants,
    )

-- What a name depends on: the local variables, and the one whose value is being compiled.
abbrev pub Names : Type 0
Names = List Local × Option ℕ

abbrev pub names : Compiler → Names
names compiler = (compiler.locals, compiler.compiling_new_local_set_body)

-- A name is a local variable of the compiler, or a global one. One whose value is being compiled has no code.
unfoldable pub name_code : Services → Names → Token → List ℕ → Generated
unfolding resolve_in
name_code services ns token constants = elim (resolve_in ns.0 token) [
  | none ↦ with_constant op_get_global (services.string_value (text token)) constants
  | some number ↦
      if is_being_defined (some number) ns.1
      then none
      else some (byte_of op_get_local ∷ number % 256 ∷ [], constants)
]

-- The operands from the left to the right, then the operator.
unfoldable pub generate : Services → Names → Expr → List ℕ → Generated
unfolding numeral_code name_code
generate services ns (constant l s) constants = some (byte_of (constant_code l) ∷ [], constants)
generate services ns (numeral s) constants = numeral_code services s constants
generate services ns (text_constant s) constants =
    with_constant op_constant (services.string_value (take (s.length - 2) (drop 1 s.start)))
      constants
generate services ns (name s) constants =
    name_code services ns (spelled token_identifier s) constants
generate services ns (group s e s₁) constants = generate services ns e constants
generate services ns (array_size s s₁ e s₂) constants =
    followed_by (generate services ns e constants) (op_get_array_length ∷ [])
generate services ns (unary_expr o s e) constants =
    followed_by (generate services ns e constants) (prefix_code o)
generate services ns (binary_expr o l s r) constants = generate services ns l constants >>= λ a.
    generate services ns r a.1 >>= λ b. some (a.0 ++ (b.0 ++ bytes_of_all (operator_code o)), b.1)

-- Fuel that is enough for the tree.
unfoldable pub depth_of : Expr → ℕ
depth_of (group s e s₁) = suc (depth_of e)
depth_of (array_size s s₁ e s₂) = suc (depth_of e)
depth_of (unary_expr o s e) = suc (depth_of e)
depth_of (binary_expr o l s r) = depth_of l + depth_of r
depth_of _ = 2
