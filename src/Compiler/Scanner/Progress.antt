-- ===== src/Compiler/Scanner/Progress.antt =====
-- `next_token_scanner` returns for every source: it stays inside the text, ends, and moves on.
use lox_vm.Prelude.{
  ℕ, ◌+◌, ◌-◌, ◌<◌, ◌≡◌, ◌≢◌, refl, ap, sym, ◌∙◌, inl, inr, List, [], ◌++◌, Option, some, true,
  false, arith, ◌==◌, ◌>>=◌, length, length-append, Bool-cases, drop,
}
use lox_vm.Compiler.Scanner.Tokens.{Token, Scanner, token_error, token_eof}
use lox_vm.Compiler.Scanner.{at_the_end, peek, advance, create_token, next_token_scanner}
use lox_vm.Compiler.Scanner.Moved.{
  newlines, Moved, Moved-trans, length-Moved, Shorter, advance-cons, cons-Moved,
}
use lox_vm.Compiler.Scanner.Blanks.{behind_blank, skip_white_space-behind_blank}
use lox_vm.Compiler.Scanner.Loops.{IsToken, skip_white_space-Ends}
use lox_vm.Compiler.Scanner.Lexes.{IsAt, Lexes, dispatch-Lexes, head-cons}

-- `token` is the next one of `s`, and `s'` stands behind its text, the `lexeme`.
pub record Scanned (s : Scanner) (token : Token) (s' : Scanner) : Type 0 where
  pub blank : List ℕ
  pub lexeme : List ℕ
  pub source : s.base_source_code ≡ s'.base_source_code
  pub text : s.current ≡ blank ++ (lexeme ++ s'.current)
  pub not_blank : behind_blank false s.current ≡ lexeme ++ s'.current
  pub lines : s'.line ≡ s.line + newlines blank + newlines lexeme
  pub token_line : token.line ≡ s'.line
  pub start : token.type ≢ token_error → token.start ≡ lexeme ++ s'.current
  pub token_length : token.type ≢ token_error → token.length ≡ length lexeme
  pub at_eof : token.type ≡ token_eof → (lexeme ≡ []) × (s'.current ≡ [])
  pub progress : token.type ≢ token_eof → 0 < length lexeme

end-nil : (s : Scanner) → at_the_end s ≡ true → s.current ≡ []
unfolding at_the_end
end-nil s h = ground arith

advance-Ends :
    (s : Scanner)
    → at_the_end s ≡ false
    → (peek s == b'\n') ≡ false
    → (c : ℕ) × (s' : Scanner) × (advance s ≡ some (c, s')) × Moved s s' × Shorter s s'
advance-Ends s e n =
    let rest = drop 1 s.current in
    (
      peek s,
      record s { current = rest },
      advance-cons s (peek s) rest (head-cons s e),
      cons-Moved s (peek s) rest (head-cons s e) n,
      omega (arith, ap length (head-cons s e)),
    )

append-drop : (v w : List ℕ) → length (v ++ w) - length w ≡ length v
append-drop v w = omega (arith, length-append v w)

module _ (s : Scanner) where
  abbrev Restart : Scanner → Scanner
  Restart t = record t { start = t.current }

  -- What is read after the blank is the lexeme.
  lexed-Scanned :
      (t w : Scanner) (token : Token)
      → Moved s t
      → behind_blank false s.current ≡ t.current
      → (n : Moved (Restart t) w) → Shorter (Restart t) w
      → IsAt w token
      → Scanned s token w
  lexed-Scanned t w token m skipped n more at =
      let begins = sym n.start ∙ n.text in
      record {
        blank = m.consumed;
        lexeme = n.consumed;
        source = m.source ∙ n.source;
        text = m.text ∙ ap (◌++◌ m.consumed) n.text;
        not_blank = skipped ∙ n.text;
        lines = omega (arith, m.line, n.line);
        token_line = at.line;
        start = λ h. at.start h ∙ begins;
        token_length = λ h.
            at.length h
            ∙ ap (λ l. length l - length w.current) begins
            ∙ append-drop n.consumed w.current;
        at_eof = λ h. absurd (at.proper h);
        progress = λ _. omega (arith, length-Moved n);
      }

  eof-Scanned :
      (t : Scanner)
      → Moved s t
      → behind_blank false s.current ≡ t.current
      → t.current ≡ []
      → Scanned s (create_token (Restart t) token_eof) (Restart t)
  unfolding create_token
  eof-Scanned t m skipped nothing = record {
    blank = m.consumed;
    lexeme = [];
    source = m.source;
    text = m.text;
    not_blank = skipped;
    lines = omega (arith, m.line);
    token_line = refl;
    start = λ _. refl;
    token_length = λ _. omega arith;
    at_eof = λ _. (refl, nothing);
    progress = λ h. absurd (h refl);
  }

lexes :
    (s : Scanner) {r : Option (Token × Scanner)}
    → Lexes s r
    → (token : Token) × (s' : Scanner) × (r ≡ some (token, s')) × Moved s s' × IsAt s' token
unfolding Lexes
lexes s h = h

IsToken-line : (s : Scanner) → IsToken s → (peek s == b'\n') ≡ false
unfolding IsToken
IsToken-line s h = h.1

-- The scanner returns a token for every text: no pointer leaves the source and every loop ends. The lexeme
-- begins just where behind_blank finds the first byte that is neither white space nor in a comment, and the
-- state stands just behind it. A token that is no error has the place and the length of its lexeme. The lines
-- counted are the line breaks passed, the token has the last of them. Every lexeme but that of `token_eof`
-- has a byte at least, and `token_eof` is returned at the end of the source only.
pub next_token_scanner-total :
    (s : Scanner)
    → (token : Token) × (s' : Scanner) × (next_token_scanner s ≡ some (token, s'))
      × Scanned s token s'
unfolding next_token_scanner
next_token_scanner-total s =
    let (t, run, m, first) = skip_white_space-Ends s in
    let skipped = skip_white_space-behind_blank s t run in
    let u = record t { start = t.current } in
    elim (Bool-cases (at_the_end u)) [
      | inl e ↦
          (create_token u token_eof, u, rw (run, ◌>>=◌, e), eof-Scanned s t m skipped (end-nil u e))
      | inr e ↦
          let (c, v, run', m', more) = advance-Ends u e (IsToken-line t first) in
          let (token, w, run'', m'', at) = lexes v (dispatch-Lexes c v) in
          (
            token,
            w,
            rw (run, ◌>>=◌, e, run', run''),
            lexed-Scanned s t w token m skipped (Moved-trans m' m'')
                (omega (arith, length-Moved m'')) at,
          )
    ]
