-- ===== src/Compiler/Scanner/Tokens.antt =====
-- The tokens of src/compiler/bytecode/scanner.h. A `char *` into the source is the text from that
-- byte to the terminator, which is not part of the list.
use lox_vm.Prelude.{ℕ, List}

pub data TokenType : Type 0 where
  token_open_paren token_close_paren token_open_brace token_close_brace : TokenType
  token_comma token_dot token_minus token_plus token_semicolon token_slash token_star : TokenType
  token_bang token_bang_equal token_equal token_equal_equal : TokenType
  token_greater token_greater_equal token_less token_less_equal : TokenType
  token_identifier token_string token_number : TokenType
  token_and token_else token_false token_for token_fun token_if token_nil token_or : TokenType
  token_print token_return token_true token_var token_while token_error token_eof : TokenType
  token_struct token_colon token_const token_pub token_use token_parallel token_sync : TokenType
  token_open_square token_close_square token_inline token_ampersand token_bar : TokenType
  token_left_shift token_right_shift token_percentage token_len token_no_token : TokenType

pub record Token : Type 0 where
  pub type : TokenType
  pub start : List ℕ
  pub length : ℕ
  pub line : ℕ

pub record Scanner : Type 0 where
  pub base_source_code : List ℕ
  pub start : List ℕ
  pub current : List ℕ
  pub line : ℕ
