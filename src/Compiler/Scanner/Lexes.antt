-- ===== src/Compiler/Scanner/Lexes.antt =====
-- The functions of src/compiler/bytecode/scanner.c that read the rest of a token: each returns one.
use lox_vm.Prelude.{
  ℕ, ◌-◌, ◌≡◌, ◌≢◌, refl, inl, inr, ◌∷◌, Option, some, Bool, true, false, ◌&&◌, arith, ◌==◌,
  if◌then◌else◌, ◌>>=◌, length, String, Bool-cases, drop, get_or,
}
use lox_vm.Compiler.Scanner.Tokens.{
  Token, TokenType, Scanner, token_open_paren, token_close_paren, token_open_brace,
  token_close_brace, token_comma, token_dot, token_minus, token_plus, token_semicolon, token_slash,
  token_star, token_bang, token_bang_equal, token_equal, token_equal_equal, token_greater,
  token_greater_equal, token_less, token_less_equal, token_string, token_number, token_and,
  token_else, token_false, token_for, token_fun, token_nil, token_or, token_print, token_return,
  token_true, token_var, token_while, token_error, token_eof, token_struct, token_colon,
  token_const, token_pub, token_use, token_parallel, token_sync, token_open_square,
  token_close_square, token_inline, token_ampersand, token_bar, token_left_shift, token_right_shift,
  token_percentage, token_len,
}
use lox_vm.Compiler.Scanner.{
  at_the_end, peek, peek_next, fraction, in_string, is_digit, is_alpha, match, create_token,
  create_error_token, identifier_type, keyword_switch, identifier, number, string, one_or_two,
  one_of_three, symbol, dispatch, check_keyword, is_long,
}
use lox_vm.Compiler.Scanner.Moved.{Moved, Moved-refl, Moved-trans, Ends, step-Ends, cons-Moved}
use lox_vm.Compiler.Scanner.Loops.{digits-Ends, word-Ends, string-Ends}

-- A token of the state `s` where its last byte has been read: an error, or the text from `s.start`.
pub record IsAt (s : Scanner) (token : Token) : Type 0 where
  pub proper : token.type ≢ token_eof
  pub line : token.line ≡ s.line
  pub start : token.type ≢ token_error → token.start ≡ s.start
  pub length : token.type ≢ token_error → token.length ≡ length s.start - length s.current

-- a run that returns a token, and the state after it
unfoldable pub Lexes : Scanner → Option (Token × Scanner) → Type 0
Lexes s r = (token : Token) × (s' : Scanner) × (r ≡ some (token, s')) × Moved s s' × IsAt s' token

create_token-IsAt :
    (s : Scanner) (type : TokenType) → type ≢ token_eof → IsAt s (create_token s type)
unfolding create_token
create_token-IsAt s type h = record {
  proper = h;
  line = refl;
  start = λ _. refl;
  length = λ _. refl;
}

create_error_token-IsAt : (s : Scanner) (m : String) → IsAt s (create_error_token s m)
unfolding create_error_token
create_error_token-IsAt s m = record {
  proper = λ e. cc;
  line = refl;
  start = λ h. absurd (h refl);
  length = λ h. absurd (h refl);
}

check_keyword-proper :
    (s : Scanner) (i n : ℕ) (w : String) (type : TokenType)
    → type ≢ token_eof
    → check_keyword s i n w type ≢ token_eof
unfolding check_keyword
check_keyword-proper s i n w type h = ground arith

if-proper :
    (b : Bool) (x y : TokenType) → x ≢ token_eof → y ≢ token_eof → (if b then x else y) ≢ token_eof
if-proper true x y h k = h
if-proper false x y h k = k

identifier_type-proper : (s : Scanner) → identifier_type s ≢ token_eof
unfolding identifier_type keyword_switch
identifier_type-proper s =
    let c = get_or s.start 0 0 in
    let d = get_or s.start 1 0 in
    let kw = check_keyword-proper s in
    let case_n = kw 1 2 "il" token_nil (λ e. cc) in
    let case_l = kw 1 2 "en" token_len (λ e. cc) in
    let two =
      λ (b c : Bool) (x y z : TokenType) (h : x ≢ token_eof) (k : y ≢ token_eof)
          (l : z ≢ token_eof).
        if-proper b x (if c then y else z) h (if-proper c y z k l) in
    if-proper (c == b'a') _ _ (kw 1 2 "nd" token_and (λ e. cc)) (
      if-proper (c == b'e') _ _ (kw 1 3 "lse" token_else (λ e. cc)) (
        if-proper (c == b'c') _ _ (kw 1 4 "onst" token_const (λ e. cc)) (
          if-proper (c == b'i') _ _
            (two (is_long s && d == b'f') (is_long s && d == b'n') _ _ _ (λ e. cc)
              (kw 2 4 "line" token_inline (λ e. cc)) case_n)
            (if-proper (c == b'n') _ _ case_n (
              if-proper (c == b'o') _ _ (kw 1 1 "r" token_or (λ e. cc)) (
                if-proper (c == b'p') _ _
                  (if-proper (is_long s && d == b'a') _ _ (kw 2 6 "rallel" token_parallel (λ e. cc))
                    (two (is_long s && d == b'r') (is_long s && d == b'u') _ _ _
                      (kw 2 3 "int" token_print (λ e. cc)) (kw 2 1 "b" token_pub (λ e. cc)) case_l))
                  (if-proper (c == b'l') _ _ case_l (
                    if-proper (c == b'r') _ _ (kw 1 5 "eturn" token_return (λ e. cc)) (
                      if-proper (c == b's') _ _
                        (two (is_long s && d == b't') (is_long s && d == b'y') _ _ _
                          (kw 2 4 "ruct" token_struct (λ e. cc)) (kw 2 2 "nc" token_sync (λ e. cc))
                          (kw 1 5 "truct" token_struct (λ e. cc)))
                        (if-proper (c == b'v') _ _ (kw 1 2 "ar" token_var (λ e. cc)) (
                          if-proper (c == b'w') _ _ (kw 1 4 "hile" token_while (λ e. cc)) (
                            if-proper (c == b'u') _ _ (kw 1 2 "se" token_use (λ e. cc)) (
                              if-proper (c == b't') _ _ (kw 1 3 "rue" token_true (λ e. cc)) (
                                if-proper (c == b'f') _ _
                                  (if-proper (is_long s && d == b'a') _ _
                                    (kw 2 3 "lse" token_false (λ e. cc))
                                    (two (is_long s && d == b'o') (is_long s && d == b'u') _ _ _
                                      (kw 2 1 "r" token_for (λ e. cc))
                                      (kw 2 1 "n" token_fun (λ e. cc)) (λ e. cc)))
                                  (λ e. cc)))))))))))))))

identifier-Lexes : (s : Scanner) → Lexes s (identifier s)
unfolding Lexes identifier
identifier-Lexes s =
    let (t, run, m, done) = word-Ends s in
    (
      create_token t (identifier_type t),
      t,
      rw run,
      m,
      create_token-IsAt t _ (identifier_type-proper t),
    )

fraction-Ends : (s : Scanner) → Ends s (fraction s) (λ s'. Unit {0})
unfolding fraction peek_next at_the_end peek
fraction-Ends s = elim (Bool-cases (peek s == b'.' && is_digit (peek_next s))) [
  | inr e ↦ (s, rw e, Moved-refl s, tt)
  | inl e ↦
      let (t, run, m, less) = step-Ends s (ground arith) (ground arith) in
      let (u, run', m', done) = digits-Ends t in (u, rw (e, run) run', Moved-trans m m', tt)
]

number-Lexes : (s : Scanner) → Lexes s (number s)
unfolding Lexes number
number-Lexes s =
    let (t, run, m, done) = digits-Ends s in
    let (u, run', m', _) = fraction-Ends t in
    elim (Bool-cases (at_the_end u)) [
      | inl e ↦ (
        create_error_token u "Unterminated immediate.",
        u,
        rw (run, ◌>>=◌, run', e),
        Moved-trans m m',
        create_error_token-IsAt u "Unterminated immediate.",
      )
      | inr e ↦ (
        create_token u token_number,
        u,
        rw (run, ◌>>=◌, run', e),
        Moved-trans m m',
        create_token-IsAt u token_number (λ e. cc),
      )
    ]

string-Lexes : (s : Scanner) → Lexes s (string s)
unfolding Lexes string in_string
string-Lexes s =
    let (t, run, m, done) = string-Ends s in
    elim (Bool-cases (at_the_end t)) [
      | inl e ↦ (
        create_error_token t "Unterminated key.",
        t,
        rw (run, ◌>>=◌, e),
        m,
        create_error_token-IsAt t "Unterminated key.",
      )
      | inr e ↦
          let (u, run', m', less) = step-Ends t e (ground arith) in
          (
            create_token u token_string,
            u,
            rw (run, ◌>>=◌, e, run'),
            Moved-trans m m',
            create_token-IsAt u token_string (λ e. cc),
          )
    ]

match-no : (s : Scanner) (c : ℕ) → at_the_end s ≡ true → (match s c).1 ≡ s
unfolding match
match-no s c e = rw e

match-other :
    (s : Scanner) (c : ℕ) → at_the_end s ≡ false → (peek s == c) ≡ false → (match s c).1 ≡ s
unfolding match peek
match-other s c e n = rw (e, n)

match-same :
    (s : Scanner) (c : ℕ)
    → at_the_end s ≡ false
    → (peek s == c) ≡ true
    → (match s c).1 ≡ record s { current = drop 1 s.current }
unfolding match peek
match-same s c e n = rw (e, n)

-- At a byte that is not the terminator.
pub head-cons : (s : Scanner) → at_the_end s ≡ false → s.current ≡ peek s ∷ drop 1 s.current
unfolding at_the_end peek
head-cons s e = ground arith

match-Moved : (s : Scanner) (c : ℕ) → (c == b'\n') ≡ false → Moved s (match s c).1
match-Moved s c n = elim (Bool-cases (at_the_end s)) [
  | inl e ↦ rw (match-no s c e) (Moved-refl s)
  | inr e ↦ elim (Bool-cases (peek s == c)) [
    | inr other ↦ rw (match-other s c e other) (Moved-refl s)
    | inl same ↦
        rw (match-same s c e same)
          (cons-Moved s (peek s) (drop 1 s.current) (head-cons s e) (ground arith))
  ]
]

one_or_two-Lexes :
    (s : Scanner) (c : ℕ) (x y : TokenType)
    → (c == b'\n') ≡ false
    → x ≢ token_eof
    → y ≢ token_eof
    → Lexes s (some (one_or_two s c x y))
unfolding Lexes one_or_two
one_or_two-Lexes s c x y n h k =
    let (matched, t) = match s c in
    (
      create_token t (if matched then x else y),
      t,
      refl,
      match-Moved s c n,
      create_token-IsAt t _ (if-proper matched x y h k),
    )

one_of_three-Lexes :
    (s : Scanner) (c : ℕ) (x y z : TokenType)
    → (c == b'\n') ≡ false
    → x ≢ token_eof
    → y ≢ token_eof
    → z ≢ token_eof
    → Lexes s (some (one_of_three s c x y z))
unfolding Lexes one_of_three
one_of_three-Lexes s c x y z n h k l =
    let t = (match s b'=').1 in
    let m = match-Moved s b'=' refl in
    elim (Bool-cases (match s b'=').0) [
      | inl e ↦ (create_token t x, t, rw e, m, create_token-IsAt t x h)
      | inr e ↦
          let u = (match t c).1 in
          (
            create_token u (if (match t c).0 then y else z),
            u,
            rw e,
            Moved-trans m (match-Moved t c n),
            create_token-IsAt u _ (if-proper _ y z k l),
          )
    ]

plain-Lexes : (s : Scanner) (x : TokenType) → x ≢ token_eof → Lexes s (some (create_token s x, s))
unfolding Lexes
plain-Lexes s x h = (create_token s x, s, refl, Moved-refl s, create_token-IsAt s x h)

-- A run that is chosen by a test.
if-Lexes :
    (s : Scanner) (b : Bool) (q r : Option (Token × Scanner))
    → Lexes s q
    → Lexes s r
    → Lexes s (if b then q else r)
if-Lexes s true q r h k = h
if-Lexes s false q r h k = k

unexpected-Lexes : (s : Scanner) → Lexes s (some (create_error_token s "Unexpected token", s))
unfolding Lexes
unexpected-Lexes s = (
  create_error_token s "Unexpected token",
  s,
  refl,
  Moved-refl s,
  create_error_token-IsAt s "Unexpected token",
)

symbol-Lexes : (c : ℕ) (s : Scanner) → Lexes s (symbol c s)
unfolding symbol
symbol-Lexes c s = if-Lexes s (c == b'%') _ _ (plain-Lexes s token_percentage (λ e. cc)) (
    if-Lexes s (c == b'|') _ _ (plain-Lexes s token_bar (λ e. cc)) (
      if-Lexes s (c == b'&') _ _ (plain-Lexes s token_ampersand (λ e. cc)) (
        if-Lexes s (c == b':') _ _ (plain-Lexes s token_colon (λ e. cc)) (
          if-Lexes s (c == b'(') _ _ (plain-Lexes s token_open_paren (λ e. cc)) (
            if-Lexes s (c == b')') _ _ (plain-Lexes s token_close_paren (λ e. cc)) (
              if-Lexes s (c == b'{') _ _ (plain-Lexes s token_open_brace (λ e. cc)) (
                if-Lexes s (c == b'}') _ _ (plain-Lexes s token_close_brace (λ e. cc)) (
                  if-Lexes s (c == b'[') _ _ (plain-Lexes s token_open_square (λ e. cc)) (
                    if-Lexes s (c == b']') _ _ (plain-Lexes s token_close_square (λ e. cc)) (
                      if-Lexes s (c == b';') _ _ (plain-Lexes s token_semicolon (λ e. cc)) (
                        if-Lexes s (c == b',') _ _ (plain-Lexes s token_comma (λ e. cc)) (
                          if-Lexes s (c == b'.') _ _ (plain-Lexes s token_dot (λ e. cc)) (
                            if-Lexes s (c == b'-') _ _ (plain-Lexes s token_minus (λ e. cc)) (
                              if-Lexes s (c == b'+') _ _ (plain-Lexes s token_plus (λ e. cc)) (
                                if-Lexes s (c == b'/') _ _ (plain-Lexes s token_slash (λ e. cc)) (
                                  if-Lexes s (c == b'*') _ _ (plain-Lexes s token_star (λ e. cc)) (
                                    if-Lexes s (c == b'!') _ _
                                      (one_or_two-Lexes s b'=' token_bang_equal token_bang refl
                                        (λ e. cc) (λ e. cc))
                                      (if-Lexes s (c == b'=') _ _
                                        (one_or_two-Lexes s b'=' token_equal_equal token_equal refl
                                          (λ e. cc) (λ e. cc))
                                        (if-Lexes s (c == b'<') _ _
                                          (one_of_three-Lexes s b'<' token_less_equal
                                            token_left_shift token_less refl (λ e. cc) (λ e. cc)
                                            (λ e. cc))
                                          (if-Lexes s (c == b'>') _ _
                                            (one_of_three-Lexes s b'>' token_greater_equal
                                              token_right_shift token_greater refl (λ e. cc)
                                              (λ e. cc) (λ e. cc))
                                            (if-Lexes s (c == b'"') _ _ (string-Lexes s)
                                              (unexpected-Lexes s))))))))))))))))))))))

pub dispatch-Lexes : (c : ℕ) (s : Scanner) → Lexes s (dispatch c s)
unfolding dispatch
dispatch-Lexes c s =
    if-Lexes s (is_digit c) _ _ (number-Lexes s)
      (if-Lexes s (is_alpha c) _ _ (identifier-Lexes s) (symbol-Lexes c s))
