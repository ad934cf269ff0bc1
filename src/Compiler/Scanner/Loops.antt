-- ===== src/Compiler/Scanner/Loops.antt =====
-- The loops of src/compiler/bytecode/scanner.c: each ends within its fuel, inside the source.
use lox_vm.Prelude.{
  ℕ, zero, suc, ◌<◌, ◌≡◌, refl, ap, ◌∙◌, inl, inr, [], ◌∷◌, ◌++◌, Option, some, Bool, true, false,
  ◌&&◌, arith, ◌==◌, length, Bool-cases,
}
use lox_vm.Compiler.Scanner.Tokens.{Scanner}
use lox_vm.Compiler.Scanner.{
  at_the_end, peek, peek_next, step, scan_while, rounds, in_comment, skip_comment, is_blank,
  next_line, skip_rounds, skip_white_space, at_word, at_digit, digits, in_string, string_step,
}
use lox_vm.Compiler.Scanner.Moved.{
  Moved, Moved-refl, Moved-trans, length-Moved, Ends, Shorter, List-cases, advance-cons, step-Ends,
}

pub scan_while_step :
    (test : Scanner → Bool) (body : Scanner → Option Scanner) (fuel : ℕ) (s : Scanner) {t : Scanner}
    → test s ≡ true
    → body s ≡ some t
    → scan_while (suc fuel) test body s ≡ scan_while fuel test body t
unfolding scan_while
scan_while_step test body fuel s more run = ground arith

pub scan_while_stop :
    (test : Scanner → Bool) (body : Scanner → Option Scanner) (fuel : ℕ) (s : Scanner)
    → test s ≡ false
    → scan_while (suc fuel) test body s ≡ some s
unfolding scan_while
scan_while_stop test body fuel s done = ground arith

-- A loop whose body moves on ends, and its test fails where it ends.
pub scan_while-Ends :
    (test : Scanner → Bool) (body : Scanner → Option Scanner)
    → ((s : Scanner) → test s ≡ true → Ends s (body s) (Shorter s))
    → (fuel : ℕ) (s : Scanner) → length s.current < fuel
    → Ends s (scan_while fuel test body s) (λ s'. test s' ≡ false)
scan_while-Ends test body keep zero s h = absurd (omega arith)
scan_while-Ends test body keep (suc fuel) s h = elim (Bool-cases (test s)) [
  | inr done ↦ (s, scan_while_stop test body fuel s done, Moved-refl s, done)
  | inl more ↦
      let (t, run, moved, less) = keep s more in
      let (u, run', moved', done) = scan_while-Ends test body keep fuel t (omega arith) in
      (u, scan_while_step test body fuel s more run ∙ run', Moved-trans moved moved', done)
]

while-Ends :
    (test : Scanner → Bool) (body : Scanner → Option Scanner)
    → ((s : Scanner) → test s ≡ true → Ends s (body s) (Shorter s))
    → (s : Scanner) → Ends s (scan_while (rounds s) test body s) (λ s'. test s' ≡ false)
unfolding rounds
while-Ends test body keep s = scan_while-Ends test body keep _ s (omega arith)

-- What lets a loop take a step: it is not at the terminator, nor at a line break.
abbrev OnText : Scanner → Type 0
OnText s = (at_the_end s ≡ false) × ((peek s == b'\n') ≡ false)

in_comment-OnText : (s : Scanner) → in_comment s ≡ true → OnText s
unfolding in_comment
in_comment-OnText s h = ground arith

at_digit-OnText : (s : Scanner) → at_digit s ≡ true → OnText s
unfolding at_digit at_the_end
at_digit-OnText s h = ground arith

at_word-OnText : (s : Scanner) → at_word s ≡ true → OnText s
unfolding at_word at_the_end
at_word-OnText s h = ground arith

pub on_text : (s : Scanner) → OnText s → Ends s (step s) (Shorter s)
on_text s h = step-Ends s h.0 h.1

-- A comment ends before its line break.
pub skip_comment-Ends : (s : Scanner) → Ends s (skip_comment s) (λ s'. in_comment s' ≡ false)
unfolding skip_comment
skip_comment-Ends s = while-Ends in_comment step (λ t h. on_text t (in_comment-OnText t h)) s

pub digits-Ends : (s : Scanner) → Ends s (digits s) (λ s'. at_digit s' ≡ false)
unfolding digits
digits-Ends s = while-Ends at_digit step (λ t h. on_text t (at_digit-OnText t h)) s

pub word-Ends :
    (s : Scanner) → Ends s (scan_while (rounds s) at_word step s) (λ s'. at_word s' ≡ false)
word-Ends s = while-Ends at_word step (λ t h. on_text t (at_word-OnText t h)) s

-- A step over a byte, which counts a line if the byte is a line break.
break-Ends :
    (s : Scanner)
    → at_the_end s ≡ false
    → (peek s == b'\n') ≡ true
    → Ends s (step (next_line s)) (Shorter s)
unfolding step at_the_end peek next_line
break-Ends s more n = elim (List-cases s.current) [
  | inl e ↦ absurd (ground arith)
  | inr (c, rest, e) ↦
      let same : (c == b'\n') ≡ true = rw e at n in
      (
        record (next_line s) { current = rest },
        rw (advance-cons (next_line s) c rest e),
        record {
          consumed = c ∷ [];
          source = refl;
          start = refl;
          text = e;
          line = rw same (omega arith);
        },
        omega (arith, ap length e),
      )
]

string_step-Ends : (s : Scanner) → in_string s ≡ true → Ends s (string_step s) (Shorter s)
unfolding in_string string_step
string_step-Ends s h = elim (Bool-cases (peek s == b'\n')) [
  | inl n ↦ rw n (break-Ends s (ground arith) n)
  | inr n ↦ rw n (step-Ends s (ground arith) n)
]

pub string-Ends :
    (s : Scanner)
    → Ends s (scan_while (rounds s) in_string string_step s) (λ s'. in_string s' ≡ false)
string-Ends s = while-Ends in_string string_step string_step-Ends s

-- The first byte after white space and comments begins a token, or is the terminator.
unfoldable pub IsToken : Scanner → Type 0
IsToken s =
    (is_blank (peek s) ≡ false)
    × ((peek s == b'\n') ≡ false)
    × ((peek s == b'/' && peek_next s == b'/') ≡ false)

blank-OnText : (s : Scanner) → is_blank (peek s) ≡ true → OnText s
unfolding is_blank peek at_the_end
blank-OnText s h = ground arith

break-more : (s : Scanner) → (peek s == b'\n') ≡ true → at_the_end s ≡ false
unfolding peek at_the_end
break-more s h = ground arith

slash-in_comment :
    (s : Scanner) → (peek s == b'/' && peek_next s == b'/') ≡ true → in_comment s ≡ true
unfolding in_comment peek_next
slash-in_comment s h = ground arith

in_comment_congr : (s t : Scanner) → s.current ≡ t.current → in_comment s ≡ in_comment t
unfolding in_comment
in_comment_congr s t e = rw e

-- A comment has a byte at least.
comment_Shorter :
    (s s' : Scanner) → Moved s s' → in_comment s ≡ true → in_comment s' ≡ false → Shorter s s'
comment_Shorter s s' m yes_comment ended = elim (List-cases m.consumed) [
  | inl e ↦ absurd (cc (in_comment_congr s s' (m.text ∙ ap (λ w. w ++ s'.current) e)))
  | inr (c, w, e) ↦ omega (arith, length-Moved m, ap length e)
]

module _ (fuel : ℕ) (s : Scanner) where
  pub skip_blank :
      {t : Scanner}
      → is_blank (peek s) ≡ true
      → step s ≡ some t
      → skip_rounds (suc fuel) s ≡ skip_rounds fuel t
  unfolding skip_rounds
  skip_blank b run = rw (b, skip_rounds, run)

  pub skip_break :
      {t : Scanner}
      → is_blank (peek s) ≡ false
      → (peek s == b'\n') ≡ true
      → step (next_line s) ≡ some t
      → skip_rounds (suc fuel) s ≡ skip_rounds fuel t
  unfolding skip_rounds
  skip_break b n run = rw (b, skip_rounds, n, run)

  pub skip_slashes :
      {t : Scanner}
      → is_blank (peek s) ≡ false
      → (peek s == b'\n') ≡ false
      → (peek s == b'/' && peek_next s == b'/') ≡ true
      → skip_comment s ≡ some t
      → skip_rounds (suc fuel) s ≡ skip_rounds fuel t
  unfolding skip_rounds
  skip_slashes b n c run = rw (b, skip_rounds, n, c, run)

  pub skip_done : IsToken s → skip_rounds (suc fuel) s ≡ some s
  unfolding skip_rounds IsToken
  skip_done t = rw (t.0, skip_rounds, t.1, t.2)

skip_rounds-Ends :
    (fuel : ℕ) (s : Scanner) → length s.current < fuel → Ends s (skip_rounds fuel s) IsToken
unfolding IsToken
skip_rounds-Ends zero s h = absurd (omega arith)
skip_rounds-Ends (suc fuel) s h = elim (Bool-cases (is_blank (peek s))) [
  | inl b ↦
      let (t, run, m, less) = on_text s (blank-OnText s b) in
      let (u, run', m', done) = skip_rounds-Ends fuel t (omega arith) in
      (u, skip_blank fuel s b run ∙ run', Moved-trans m m', done)
  | inr b ↦ elim (Bool-cases (peek s == b'\n')) [
    | inl n ↦
        let (t, run, m, less) = break-Ends s (break-more s n) n in
        let (u, run', m', done) = skip_rounds-Ends fuel t (omega arith) in
        (u, skip_break fuel s b n run ∙ run', Moved-trans m m', done)
    | inr n ↦ elim (Bool-cases (peek s == b'/' && peek_next s == b'/')) [
      | inl c ↦
          let (t, run, m, ended) = skip_comment-Ends s in
          let less = comment_Shorter s t m (slash-in_comment s c) ended in
          let (u, run', m', done) = skip_rounds-Ends fuel t (omega arith) in
          (u, skip_slashes fuel s b n c run ∙ run', Moved-trans m m', done)
      | inr c ↦ (s, skip_done fuel s (b, n, c), Moved-refl s, (b, n, c))
    ]
  ]
]

pub skip_white_space-Ends : (s : Scanner) → Ends s (skip_white_space s) IsToken
unfolding skip_white_space rounds
skip_white_space-Ends s = skip_rounds-Ends (rounds s) s (omega arith)
