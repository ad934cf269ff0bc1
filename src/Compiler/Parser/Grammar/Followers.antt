-- ===== src/Compiler/Parser/Grammar/Followers.antt =====
-- The tokens that may follow an expression: the loop of parse_precedence stops at them.
use lox_vm.Prelude.{◌≡◌, refl, Bool, true, false, ◌&&◌, not, List, [], ◌∷◌, arith, ◌==◌}
use lox_vm.Compiler.Scanner.Tokens.{
  TokenType, token_open_paren, token_close_paren, token_open_brace, token_close_brace, token_comma,
  token_minus, token_plus, token_semicolon, token_slash, token_star, token_bang_equal, token_equal,
  token_equal_equal, token_greater, token_greater_equal, token_less, token_less_equal, token_error,
  token_eof, token_colon, token_open_square, token_close_square, token_ampersand, token_bar,
  token_left_shift, token_right_shift, token_percentage,
}
use lox_vm.Compiler.Parser.Tokens.{token_code}

-- The tokens that may follow an expression: what closes or separates, and the operators.
abbrev pub ends : TokenType → Bool
ends token_comma = true
ends token_close_paren = true
ends token_close_square = true
ends token_close_brace = true
ends token_semicolon = true
ends token_eof = true
ends token_minus = true
ends token_percentage = true
ends token_plus = true
ends token_left_shift = true
ends token_right_shift = true
ends token_ampersand = true
ends token_bar = true
ends token_slash = true
ends token_star = true
ends token_bang_equal = true
ends token_equal_equal = true
ends token_greater = true
ends token_greater_equal = true
ends token_less = true
ends token_less_equal = true
ends _ = false

-- A type that is none of some.
abbrev pub none_of : List TokenType → TokenType → Bool
none_of [] type = true
none_of (k ∷ ks) type = not (token_code type == token_code k) && none_of ks type

-- What the handlers of an expression ask of the token behind it.
pub record Stops (type : TokenType) : Type 0 where
  pub no_error : (token_code type == token_code token_error) ≡ false
  pub no_assignment : (token_code type == token_code token_equal) ≡ false
  pub no_index : (token_code type == token_code token_open_square) ≡ false
  pub no_struct : (token_code type == token_code token_open_brace) ≡ false
  pub no_package : (token_code type == token_code token_colon) ≡ false
  pub no_call : (token_code type == token_code token_open_paren) ≡ false

ends-none_of :
    (type : TokenType)
    → ends type ≡ true
    → none_of
        (token_error ∷ token_equal ∷ token_open_square ∷ token_open_brace ∷ token_colon
          ∷ token_open_paren ∷ [])
        type
      ≡ true
unfolding token_code
ends-none_of token_comma h = refl
ends-none_of token_close_paren h = refl
ends-none_of token_close_square h = refl
ends-none_of token_close_brace h = refl
ends-none_of token_semicolon h = refl
ends-none_of token_eof h = refl
ends-none_of token_minus h = refl
ends-none_of token_percentage h = refl
ends-none_of token_plus h = refl
ends-none_of token_left_shift h = refl
ends-none_of token_right_shift h = refl
ends-none_of token_ampersand h = refl
ends-none_of token_bar h = refl
ends-none_of token_slash h = refl
ends-none_of token_star h = refl
ends-none_of token_bang_equal h = refl
ends-none_of token_equal_equal h = refl
ends-none_of token_greater h = refl
ends-none_of token_greater_equal h = refl
ends-none_of token_less h = refl
ends-none_of token_less_equal h = refl
ends-none_of _ h = absurd (ground arith)

pub ends-Stops : (type : TokenType) → ends type ≡ true → Stops type
ends-Stops type h =
    let all = ends-none_of type h in
    record {
      no_error = ground (arith, all);
      no_assignment = ground (arith, all);
      no_index = ground (arith, all);
      no_struct = ground (arith, all);
      no_package = ground (arith, all);
      no_call = ground (arith, all);
    }
