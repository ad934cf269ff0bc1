-- ===== src/Compiler/Parser/Rules.antt =====
-- The table of the rules by which expressions are parsed. A token that it does not name has none.
use lox_vm.Prelude.{ℕ}
use lox_vm.Compiler.Scanner.Tokens.{
  TokenType, token_inline, token_open_paren, token_open_square, token_dot, token_minus,
  token_percentage, token_plus, token_left_shift, token_right_shift, token_ampersand, token_bar,
  token_slash, token_star, token_bang, token_bang_equal, token_equal_equal, token_greater,
  token_greater_equal, token_less, token_less_equal, token_len, token_identifier, token_string,
  token_number, token_and, token_or, token_false, token_nil, token_true,
}

abbrev pub prec_none : ℕ
prec_none = 0

abbrev pub prec_assignment : ℕ
prec_assignment = 1

abbrev pub prec_or : ℕ
prec_or = 2

abbrev pub prec_and : ℕ
prec_and = 3

abbrev pub prec_equality : ℕ
prec_equality = 4

abbrev pub prec_comparison : ℕ
prec_comparison = 5

abbrev pub prec_term : ℕ
prec_term = 6

abbrev pub prec_factor : ℕ
prec_factor = 7

abbrev pub prec_unary : ℕ
prec_unary = 8

abbrev pub prec_call : ℕ
prec_call = 9

abbrev pub prec_primary : ℕ
prec_primary = 10

-- `no_prefix` and `no_suffix` are null pointers.
pub data Prefix : Type 0 where
  no_prefix grouping_prefix inline_expression_prefix array_inline_initialization_prefix unary_prefix
        array_length_prefix variable_prefix string_prefix number_prefix literal_prefix :
      Prefix

pub data Suffix : Type 0 where
  no_suffix function_call_suffix dot_suffix binary_suffix and_suffix or_suffix : Suffix

pub record ParseRule : Type 0 where
  pub prefix : Prefix
  pub suffix : Suffix
  pub precedence : ℕ

abbrev rule : Prefix → Suffix → ℕ → ParseRule
rule p s n = record { prefix = p; suffix = s; precedence = n }

unfoldable pub get_rule : TokenType → ParseRule
get_rule token_inline = rule inline_expression_prefix no_suffix prec_none
get_rule token_open_paren = rule grouping_prefix function_call_suffix prec_call
get_rule token_open_square = rule array_inline_initialization_prefix no_suffix prec_none
get_rule token_dot = rule no_prefix dot_suffix prec_call
get_rule token_minus = rule unary_prefix binary_suffix prec_term
get_rule token_percentage = rule no_prefix binary_suffix prec_term
get_rule token_plus = rule no_prefix binary_suffix prec_term
get_rule token_left_shift = rule no_prefix binary_suffix prec_term
get_rule token_right_shift = rule no_prefix binary_suffix prec_term
get_rule token_ampersand = rule no_prefix binary_suffix prec_term
get_rule token_bar = rule no_prefix binary_suffix prec_term
get_rule token_slash = rule no_prefix binary_suffix prec_factor
get_rule token_star = rule no_prefix binary_suffix prec_factor
get_rule token_bang = rule unary_prefix no_suffix prec_none
get_rule token_bang_equal = rule no_prefix binary_suffix prec_equality
get_rule token_equal_equal = rule no_prefix binary_suffix prec_equality
get_rule token_greater = rule no_prefix binary_suffix prec_comparison
get_rule token_greater_equal = rule no_prefix binary_suffix prec_comparison
get_rule token_less = rule no_prefix binary_suffix prec_comparison
get_rule token_less_equal = rule no_prefix binary_suffix prec_comparison
get_rule token_len = rule array_length_prefix no_suffix prec_none
get_rule token_identifier = rule variable_prefix no_suffix prec_none
get_rule token_string = rule string_prefix no_suffix prec_none
get_rule token_number = rule number_prefix no_suffix prec_none
get_rule token_and = rule no_prefix and_suffix prec_none
get_rule token_or = rule no_prefix or_suffix prec_none
get_rule token_false = rule literal_prefix no_suffix prec_none
get_rule token_nil = rule literal_prefix no_suffix prec_none
get_rule token_true = rule literal_prefix no_suffix prec_none
get_rule _ = rule no_prefix no_suffix prec_none
