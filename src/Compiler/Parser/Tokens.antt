-- ===== src/Compiler/Parser/Tokens.antt =====
-- The parser's reads of tokens.
use lox_vm.Prelude.{ℕ, String, Bool, true, false, List, [], ◌∷◌, ◌==◌, if◌then◌else◌}
use lox_vm.Compiler.Scanner.Tokens.{
  Token, TokenType, token_open_paren, token_close_paren, token_open_brace, token_close_brace,
  token_comma, token_dot, token_minus, token_plus, token_semicolon, token_slash, token_star,
  token_bang, token_bang_equal, token_equal, token_equal_equal, token_greater, token_greater_equal,
  token_less, token_less_equal, token_identifier, token_string, token_number, token_and, token_else,
  token_false, token_for, token_fun, token_if, token_nil, token_or, token_print, token_return,
  token_true, token_var, token_while, token_error, token_eof, token_struct, token_colon,
  token_const, token_pub, token_use, token_parallel, token_sync, token_open_square,
  token_close_square, token_inline, token_ampersand, token_bar, token_left_shift, token_right_shift,
  token_percentage, token_len, token_no_token,
}
use lox_vm.Compiler.Parser.State.{Result, ok, error, ◌>>=◌, Compiler, Step}

-- the value of the C enumeration
unfoldable pub token_code : TokenType → ℕ
token_code token_open_paren = 0
token_code token_close_paren = 1
token_code token_open_brace = 2
token_code token_close_brace = 3
token_code token_comma = 4
token_code token_dot = 5
token_code token_minus = 6
token_code token_plus = 7
token_code token_semicolon = 8
token_code token_slash = 9
token_code token_star = 10
token_code token_bang = 11
token_code token_bang_equal = 12
token_code token_equal = 13
token_code token_equal_equal = 14
token_code token_greater = 15
token_code token_greater_equal = 16
token_code token_less = 17
token_code token_less_equal = 18
token_code token_identifier = 19
token_code token_string = 20
token_code token_number = 21
token_code token_and = 22
token_code token_else = 23
token_code token_false = 24
token_code token_for = 25
token_code token_fun = 26
token_code token_if = 27
token_code token_nil = 28
token_code token_or = 29
token_code token_print = 30
token_code token_return = 31
token_code token_true = 32
token_code token_var = 33
token_code token_while = 34
token_code token_error = 35
token_code token_eof = 36
token_code token_struct = 37
token_code token_colon = 38
token_code token_const = 39
token_code token_pub = 40
token_code token_use = 41
token_code token_parallel = 42
token_code token_sync = 43
token_code token_open_square = 44
token_code token_close_square = 45
token_code token_inline = 46
token_code token_ampersand = 47
token_code token_bar = 48
token_code token_left_shift = 49
token_code token_right_shift = 50
token_code token_percentage = 51
token_code token_len = 52
token_code token_no_token = 53

unfoldable pub report_error {ℓ} : {A : Type ℓ} → String → Result A
report_error message = error message

-- At the end of the source the scanner gives the end of the file, again and again.
unfoldable pub next_token : Compiler → Token × List Token
next_token compiler = elim compiler.tokens [
  | [] ↦ (record { type = token_eof; start = []; length = 0; line = compiler.current.line }, [])
  | token ∷ tokens ↦ (token, tokens)
]

unfoldable pub advance_compiler : Step
unfolding next_token report_error token_code
advance_compiler compiler =
    let next = next_token compiler in
    if token_code next.0.type == token_code token_error
    then report_error ""
    else ok (record compiler { previous = compiler.current; current = next.0; tokens = next.1 })

unfoldable pub check : TokenType → Compiler → Bool
unfolding token_code
check type compiler = token_code compiler.current.type == token_code type

unfoldable pub match_token : TokenType → Compiler → Result (Bool × Compiler)
unfolding check advance_compiler
match_token type compiler =
    if check type compiler
    then (advance_compiler compiler >>= λ c. ok (true, c))
    else ok (false, compiler)

unfoldable pub consume : TokenType → String → Step
unfolding check advance_compiler report_error
consume expected message compiler =
    if check expected compiler then advance_compiler compiler else report_error message
