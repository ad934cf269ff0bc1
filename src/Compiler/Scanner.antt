-- ===== src/Compiler/Scanner.antt =====
-- The functions of src/compiler/bytecode/scanner.c. `none` is a pointer that would leave the source:
-- it is also what a loop whose fuel has run out returns. A loop has one round more than there are
-- bytes left. The terminator is the end of the list, which reads as 0.
pub mod Tokens
pub mod Moved
pub mod Blanks
pub mod Loops
pub mod Lexes
pub mod Progress
pub mod Keywords
use lox_vm.Prelude.{
  ℕ, zero, suc, ◌+◌, ◌-◌, List, [], ◌∷◌, Option, none, some, Bool, true, false, not, ◌&&◌, ◌||◌,
  String, ◌==◌, leb, ltb, if◌then◌else◌, ◌>>=◌, length, get_or, take, drop, list_eq, codes,
}
use Tokens.*

unfoldable pub init_scanner : List ℕ → Scanner
init_scanner source_code = record {
  base_source_code = source_code;
  start = source_code;
  current = source_code;
  line = 0;
}

unfoldable pub is_digit : ℕ → Bool
is_digit character = leb b'0' character && leb character b'9'

unfoldable pub is_alpha : ℕ → Bool
is_alpha character =
    leb b'a' character && leb character b'z'
    || leb b'A' character && leb character b'Z'
    || character == b'_'

unfoldable pub at_the_end : Scanner → Bool
at_the_end scanner = elim scanner.current [ [] ↦ true | c ∷ rest ↦ false ]

unfoldable pub peek : Scanner → ℕ
peek scanner = get_or scanner.current 0 0

unfoldable pub peek_next : Scanner → ℕ
unfolding at_the_end
peek_next scanner = if at_the_end scanner then 0 else get_or scanner.current 1 0

unfoldable pub advance_from : List ℕ → Scanner → Option (ℕ × Scanner)
advance_from [] scanner = none
advance_from (c ∷ rest) scanner = some (c, record scanner { current = rest })

-- `*scanner->current++`, a fault at the terminator
unfoldable pub advance : Scanner → Option (ℕ × Scanner)
unfolding advance_from
advance scanner = advance_from scanner.current scanner

unfoldable pub match : Scanner → ℕ → Bool × Scanner
unfolding at_the_end
match scanner expected =
    if at_the_end scanner
    then (false, scanner)
    else if not (get_or scanner.current 0 0 == expected)
    then (false, scanner)
    else (true, record scanner { current = drop 1 scanner.current })

unfoldable pub create_token : Scanner → TokenType → Token
create_token scanner type = record {
  type = type;
  start = scanner.start;
  length = length scanner.start - length scanner.current;
  line = scanner.line;
}

unfoldable pub create_error_token : Scanner → String → Token
create_error_token scanner message = record {
  type = token_error;
  start = codes message;
  length = length (codes message);
  line = scanner.line;
}

-- `while(test) body`
unfoldable pub scan_while :
    ℕ → (Scanner → Bool) → (Scanner → Option Scanner) → Scanner → Option Scanner
scan_while zero test body scanner = none
scan_while (suc fuel) test body scanner = elim (test scanner) [
  | true ↦ body scanner >>= scan_while fuel test body
  | false ↦ some scanner
]

unfoldable pub rounds : Scanner → ℕ
rounds scanner = suc (length scanner.current)

unfoldable pub step : Scanner → Option Scanner
unfolding advance
step scanner = advance scanner >>= λ r. some r.1

unfoldable pub in_comment : Scanner → Bool
unfolding peek at_the_end
in_comment scanner = not (peek scanner == b'\n') && not (at_the_end scanner)

unfoldable pub skip_comment : Scanner → Option Scanner
unfolding scan_while rounds step in_comment
skip_comment scanner = scan_while (rounds scanner) in_comment step scanner

unfoldable pub is_blank : ℕ → Bool
is_blank c = c == b' ' || c == b'\t' || c == b'\r'

unfoldable pub next_line : Scanner → Scanner
next_line scanner = record scanner { line = scanner.line + 1 }

-- The rounds of `for(;;)`. The case of '/' falls through to `default` unless a comment begins.
unfoldable pub skip_rounds : ℕ → Scanner → Option Scanner
unfolding peek peek_next step next_line skip_comment is_blank
skip_rounds zero scanner = none
skip_rounds (suc fuel) scanner = elim (is_blank (peek scanner)) [
  | true ↦ step scanner >>= skip_rounds fuel
  | false ↦ elim (peek scanner == b'\n') [
    | true ↦ step (next_line scanner) >>= skip_rounds fuel
    | false ↦ elim (peek scanner == b'/' && peek_next scanner == b'/') [
      | true ↦ skip_comment scanner >>= skip_rounds fuel
      | false ↦ some scanner
    ]
  ]
]

unfoldable pub skip_white_space : Scanner → Option Scanner
unfolding skip_rounds rounds
skip_white_space scanner = skip_rounds (rounds scanner) scanner

unfoldable pub check_keyword : Scanner → ℕ → ℕ → String → TokenType → TokenType
check_keyword scanner start len rest type =
    if length scanner.start - length scanner.current == start + len
      && list_eq (take len (drop start scanner.start)) (take len (codes rest))
    then type
    else token_identifier

-- `scanner->current - scanner->start > 1`
unfoldable pub is_long : Scanner → Bool
is_long scanner = ltb 1 (length scanner.start - length scanner.current)

-- The `switch` on `scanner->start[0]` and, within it, on `scanner->start[1]`. The later cases come
-- first, since a case with no `break` falls through.
unfoldable pub keyword_switch : ℕ → ℕ → Bool → (ℕ → ℕ → String → TokenType → TokenType) → TokenType
keyword_switch c d is_longer check =
    let case_n = check 1 2 "il" token_nil in
    let case_l = check 1 2 "en" token_len in
    let case_i =
      if is_longer && d == b'f'
      then token_if
      else if is_longer && d == b'n'
      then check 2 4 "line" token_inline
      else case_n in
    let case_p =
      if is_longer && d == b'a'
      then check 2 6 "rallel" token_parallel
      else if is_longer && d == b'r'
      then check 2 3 "int" token_print
      else if is_longer && d == b'u'
      then check 2 1 "b" token_pub
      else case_l in
    let case_s =
      if is_longer && d == b't'
      then check 2 4 "ruct" token_struct
      else if is_longer && d == b'y'
      then check 2 2 "nc" token_sync
      else check 1 5 "truct" token_struct in
    let case_f =
      if is_longer && d == b'a'
      then check 2 3 "lse" token_false
      else if is_longer && d == b'o'
      then check 2 1 "r" token_for
      else if is_longer && d == b'u'
      then check 2 1 "n" token_fun
      else token_identifier in
    if c == b'a'
    then check 1 2 "nd" token_and
    else if c == b'e'
    then check 1 3 "lse" token_else
    else if c == b'c'
    then check 1 4 "onst" token_const
    else if c == b'i'
    then case_i
    else if c == b'n'
    then case_n
    else if c == b'o'
    then check 1 1 "r" token_or
    else if c == b'p'
    then case_p
    else if c == b'l'
    then case_l
    else if c == b'r'
    then check 1 5 "eturn" token_return
    else if c == b's'
    then case_s
    else if c == b'v'
    then check 1 2 "ar" token_var
    else if c == b'w'
    then check 1 4 "hile" token_while
    else if c == b'u'
    then check 1 2 "se" token_use
    else if c == b't'
    then check 1 3 "rue" token_true
    else if c == b'f'
    then case_f
    else token_identifier

unfoldable pub identifier_type : Scanner → TokenType
identifier_type scanner =
    keyword_switch (get_or scanner.start 0 0) (get_or scanner.start 1 0) (is_long scanner)
      (check_keyword scanner)

unfoldable pub at_word : Scanner → Bool
unfolding is_alpha is_digit peek
at_word scanner = is_alpha (peek scanner) || is_digit (peek scanner)

unfoldable pub identifier : Scanner → Option (Token × Scanner)
unfolding scan_while rounds at_word step identifier_type create_token
identifier scanner = scan_while (rounds scanner) at_word step scanner >>= λ s.
    some (create_token s (identifier_type s), s)

unfoldable pub at_digit : Scanner → Bool
unfolding is_digit peek
at_digit scanner = is_digit (peek scanner)

unfoldable pub digits : Scanner → Option Scanner
unfolding scan_while rounds at_digit step
digits scanner = scan_while (rounds scanner) at_digit step scanner

unfoldable pub fraction : Scanner → Option Scanner
unfolding digits peek peek_next is_digit step
fraction scanner =
    if peek scanner == b'.' && is_digit (peek_next scanner)
    then step scanner >>= digits
    else some scanner

unfoldable pub number : Scanner → Option (Token × Scanner)
unfolding digits fraction at_the_end create_token create_error_token
number scanner = digits scanner >>= fraction >>= λ s.
    if at_the_end s
    then some (create_error_token s "Unterminated immediate.", s)
    else some (create_token s token_number, s)

unfoldable pub in_string : Scanner → Bool
unfolding peek at_the_end
in_string scanner = not (peek scanner == b'"') && not (at_the_end scanner)

unfoldable pub string_step : Scanner → Option Scanner
unfolding peek next_line step
string_step scanner = step (if peek scanner == b'\n' then next_line scanner else scanner)

unfoldable pub string : Scanner → Option (Token × Scanner)
unfolding scan_while rounds in_string string_step at_the_end step create_token create_error_token
string scanner = scan_while (rounds scanner) in_string string_step scanner >>= λ s.
    if at_the_end s
    then some (create_error_token s "Unterminated key.", s)
    else (step s >>= λ s'. some (create_token s' token_string, s'))

-- a token of one or two characters
unfoldable pub one_or_two : Scanner → ℕ → TokenType → TokenType → Token × Scanner
unfolding match create_token
one_or_two scanner second longer shorter =
    let (matched, s) = match scanner second in
    (create_token s (if matched then longer else shorter), s)

-- '<' and '>', with a third form
unfoldable pub one_of_three : Scanner → ℕ → TokenType → TokenType → TokenType → Token × Scanner
unfolding match create_token
one_of_three scanner second with_equal doubled single =
    let (is_equal, s) = match scanner b'=' in
    if is_equal
    then (create_token s with_equal, s)
    else (let (is_doubled, s') = match s second in
        (create_token s' (if is_doubled then doubled else single), s'))

-- the `switch` of `next_token_scanner`
unfoldable pub symbol : ℕ → Scanner → Option (Token × Scanner)
unfolding one_or_two one_of_three string create_token create_error_token
symbol c s =
    if c == b'%'
    then some (create_token s token_percentage, s)
    else if c == b'|'
    then some (create_token s token_bar, s)
    else if c == b'&'
    then some (create_token s token_ampersand, s)
    else if c == b':'
    then some (create_token s token_colon, s)
    else if c == b'('
    then some (create_token s token_open_paren, s)
    else if c == b')'
    then some (create_token s token_close_paren, s)
    else if c == b'{'
    then some (create_token s token_open_brace, s)
    else if c == b'}'
    then some (create_token s token_close_brace, s)
    else if c == b'['
    then some (create_token s token_open_square, s)
    else if c == b']'
    then some (create_token s token_close_square, s)
    else if c == b';'
    then some (create_token s token_semicolon, s)
    else if c == b','
    then some (create_token s token_comma, s)
    else if c == b'.'
    then some (create_token s token_dot, s)
    else if c == b'-'
    then some (create_token s token_minus, s)
    else if c == b'+'
    then some (create_token s token_plus, s)
    else if c == b'/'
    then some (create_token s token_slash, s)
    else if c == b'*'
    then some (create_token s token_star, s)
    else if c == b'!'
    then some (one_or_two s b'=' token_bang_equal token_bang)
    else if c == b'='
    then some (one_or_two s b'=' token_equal_equal token_equal)
    else if c == b'<'
    then some (one_of_three s b'<' token_less_equal token_left_shift token_less)
    else if c == b'>'
    then some (one_of_three s b'>' token_greater_equal token_right_shift token_greater)
    else if c == b'"'
    then string s
    else some (create_error_token s "Unexpected token", s)

unfoldable pub dispatch : ℕ → Scanner → Option (Token × Scanner)
unfolding is_digit is_alpha number identifier symbol
dispatch c s = if is_digit c then number s else if is_alpha c then identifier s else symbol c s

unfoldable pub next_token_scanner : Scanner → Option (Token × Scanner)
unfolding skip_white_space at_the_end create_token advance dispatch
next_token_scanner scanner = skip_white_space scanner >>= λ blank.
    let s = record blank { start = blank.current } in
    elim (at_the_end s) [
      | true ↦ some (create_token s token_eof, s)
      | false ↦ advance s >>= λ r. dispatch r.0 r.1
    ]
