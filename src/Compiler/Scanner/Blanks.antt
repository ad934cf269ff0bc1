-- ===== src/Compiler/Scanner/Blanks.antt =====
-- White space and comments, as skip_white_space of src/compiler/bytecode/scanner.c passes them.
use lox_vm.Prelude.{
  ℕ, zero, suc, ◌+◌, ◌≡◌, refl, ap, ap₂, sym, ◌∙◌, inl, inr, List, [], ◌∷◌, Option, some, Bool,
  true, false, not, ◌&&◌, ◌||◌, ◌==◌, arith, get_or, Bool-cases,
}
use lox_vm.Compiler.Scanner.Tokens.{Scanner}
use lox_vm.Compiler.Scanner.{
  peek, peek_next, at_the_end, step, next_line, in_comment, scan_while, skip_comment, rounds,
  is_blank, skip_rounds, skip_white_space,
}
use lox_vm.Compiler.Scanner.Loops.{
  scan_while_step, scan_while_stop, skip_blank, skip_break, skip_slashes, skip_done,
  skip_comment-Ends, IsToken,
}
use lox_vm.Compiler.Scanner.Moved.{List-cases, advance-cons}

abbrev pub is_space : ℕ → Bool
is_space c = c == b' ' || c == b'\t' || c == b'\r' || c == b'\n'

-- What follows the white space and the comments at the head of a text: a comment goes from two slashes to
-- the end of the line. The flag tells whether the text begins inside of a comment.
unfoldable pub behind_blank : Bool → List ℕ → List ℕ
behind_blank commented [] = []
behind_blank true (c ∷ text) = behind_blank (not (c == b'\n')) text
behind_blank false (c ∷ text) = elim (is_space c) [
  | true ↦ behind_blank false text
  | false ↦ elim (c == b'/' && get_or text 0 0 == b'/') [
    | true ↦ behind_blank true text
    | false ↦ c ∷ text
  ]
]

behind_nil : (commented : Bool) → behind_blank commented [] ≡ []
unfolding behind_blank
behind_nil true = refl
behind_nil false = refl

some_injective : {s t : Scanner} → ◌≡◌ {A = Option Scanner} (some s) (some t) → s ≡ t
some_injective p = cc

step-cons :
    (s : Scanner) (c : ℕ) (rest : List ℕ)
    → s.current ≡ c ∷ rest
    → step s ≡ some (record s { current = rest })
unfolding step
step-cons s c rest e = rw (advance-cons s c rest e) refl

module _ (c : ℕ) (text : List ℕ) where
  behind_space : is_space c ≡ true → behind_blank false (c ∷ text) ≡ behind_blank false text
  unfolding behind_blank
  behind_space e = ground arith

  behind_slashes :
      is_space c ≡ false
      → (c == b'/' && get_or text 0 0 == b'/') ≡ true
      → behind_blank false (c ∷ text) ≡ behind_blank true text
  unfolding behind_blank
  behind_slashes e k = ground arith

  behind_token :
      is_space c ≡ false
      → (c == b'/' && get_or text 0 0 == b'/') ≡ false
      → behind_blank false (c ∷ text) ≡ c ∷ text
  unfolding behind_blank
  behind_token e k = ground arith

  behind_commented : (c == b'\n') ≡ false → behind_blank true (c ∷ text) ≡ behind_blank true text
  unfolding behind_blank
  behind_commented e = ground arith

  behind_line : (c == b'\n') ≡ true → behind_blank true (c ∷ text) ≡ behind_blank false (c ∷ text)
  unfolding behind_blank
  behind_line e = ground arith

-- At the head of a text.
module _ (s : Scanner) (c : ℕ) (rest : List ℕ) (e : s.current ≡ c ∷ rest) where
  peek_head : peek s ≡ c
  unfolding peek
  peek_head = rw e refl

  peek_next_head : peek_next s ≡ get_or rest 0 0
  unfolding peek_next at_the_end
  peek_next_head = rw e refl

  in_comment_head : in_comment s ≡ not (c == b'\n')
  unfolding in_comment peek at_the_end
  in_comment_head = rw e (ground arith)

in_comment_nil : (s : Scanner) → s.current ≡ [] → in_comment s ≡ false
unfolding in_comment peek at_the_end
in_comment_nil s e = rw e refl

peek_nil : (s : Scanner) → s.current ≡ [] → peek s ≡ 0
unfolding peek
peek_nil s e = rw e refl

same_end : (s t : Scanner) → ◌≡◌ {A = Option Scanner} (some s) (some t) → s.current ≡ t.current
same_end s t p = ap (λ u. u.current) (some_injective p)

-- The loop over a comment ends in front of its line break.
comment-behind_blank :
    (fuel : ℕ) (s t : Scanner)
    → scan_while fuel in_comment step s ≡ some t
    → behind_blank true s.current ≡ behind_blank false t.current
unfolding scan_while
comment-behind_blank zero s t run = absurd (cc)
comment-behind_blank (suc fuel) s t run = elim (List-cases s.current) [
  | inl e ↦
      let same =
        same_end s t (sym (scan_while_stop in_comment step fuel s (in_comment_nil s e)) ∙ run) in
      ap (behind_blank true) e
      ∙ behind_nil true
      ∙ sym (behind_nil false)
      ∙ sym (ap (behind_blank false) (sym same ∙ e))
  | inr (c, rest, e) ↦ elim (Bool-cases (c == b'\n')) [
    | inl n ↦
        let done : in_comment s ≡ false = in_comment_head s c rest e ∙ ap not n in
        let same = same_end s t (sym (scan_while_stop in_comment step fuel s done) ∙ run) in
        ap (behind_blank true) e ∙ behind_line c rest n ∙ ap (behind_blank false) (sym e ∙ same)
    | inr n ↦
        let more : in_comment s ≡ true = in_comment_head s c rest e ∙ ap not n in
        let u : Scanner = record s { current = rest } in
        ap (behind_blank true) e
        ∙ behind_commented c rest n
        ∙ comment-behind_blank fuel u t
            (sym (scan_while_step in_comment step fuel s more (step-cons s c rest e)) ∙ run)
  ]
]

-- A byte that is neither a blank nor a line break is no white space.
no_space : (c d : ℕ) → d ≡ c → is_blank d ≡ false → (d == b'\n') ≡ false → is_space c ≡ false
unfolding is_blank
no_space c d p b n = ground arith

blank_space : (c d : ℕ) → d ≡ c → is_blank d ≡ true → is_space c ≡ true
unfolding is_blank
blank_space c d p b = ground arith

break_space : (c d : ℕ) → d ≡ c → (d == b'\n') ≡ true → is_space c ≡ true
break_space c d p n = ground arith

is_token :
    (s : Scanner)
    → is_blank (peek s) ≡ false
    → (peek s == b'\n') ≡ false
    → (peek s == b'/' && peek_next s == b'/') ≡ false
    → IsToken s
unfolding IsToken
is_token s b n k = (b, n, k)

end_of_text : (s : Scanner) → peek s ≡ 0 → IsToken s
unfolding IsToken is_blank
end_of_text s p = (rw p refl, rw p refl, rw p refl)

module _ (s : Scanner) (c : ℕ) (rest : List ℕ) (e : s.current ≡ c ∷ rest) where
  slashes_head :
      (b : Bool)
      → (peek s == b'/' && peek_next s == b'/') ≡ b
      → (c == b'/' && get_or rest 0 0 == b'/') ≡ b
  slashes_head b k =
      ap₂ (λ x y. x == b'/' && y == b'/') (sym (peek_head s c rest e))
        (sym (peek_next_head s c rest e))
      ∙ k

  -- A comment is what the loop over it passes.
  skip_comment-behind_blank :
      (v : Scanner)
      → (c == b'/' && get_or rest 0 0 == b'/') ≡ true
      → skip_comment s ≡ some v
      → behind_blank false s.current ≡ behind_blank false v.current
  unfolding skip_comment
  skip_comment-behind_blank v k run =
      ap (behind_blank false) e
      ∙ behind_slashes c rest (ground arith) k
      ∙ sym (behind_commented c rest (ground arith))
      ∙ sym (ap (behind_blank true) e)
      ∙ comment-behind_blank (rounds s) s v run

  next_line-step : step (next_line s) ≡ some (record s { current = rest; line = s.line + 1 })
  unfolding next_line
  next_line-step = step-cons (next_line s) c rest e

-- What skip_white_space leaves.
skip_rounds-behind_blank :
    (fuel : ℕ) (s t : Scanner)
    → skip_rounds fuel s ≡ some t
    → behind_blank false s.current ≡ t.current
unfolding skip_rounds
skip_rounds-behind_blank zero s t run = absurd (cc)
skip_rounds-behind_blank (suc fuel) s t run = elim (List-cases s.current) [
  | inl e ↦
      let none_left = peek_nil s e in
      let token = skip_done fuel s (end_of_text s none_left) in
      let same = same_end s t (sym token ∙ run) in
      ap (behind_blank false) e ∙ behind_nil false ∙ sym (sym same ∙ e)
  | inr (c, rest, e) ↦
      let here = peek_head s c rest e in
      let u : Scanner = record s { current = rest } in
      elim (Bool-cases (is_blank (peek s))) [
        | inl b ↦
            ap (behind_blank false) e
            ∙ behind_space c rest (blank_space c (peek s) here b)
            ∙ skip_rounds-behind_blank fuel u t
                (sym (skip_blank fuel s b (step-cons s c rest e)) ∙ run)
        | inr b ↦ elim (Bool-cases (peek s == b'\n')) [
          | inl n ↦
              ap (behind_blank false) e
              ∙ behind_space c rest (break_space c (peek s) here n)
              ∙ skip_rounds-behind_blank fuel (record s { current = rest; line = s.line + 1 }) t
                  (sym (skip_break fuel s b n (next_line-step s c rest e)) ∙ run)
          | inr n ↦ elim (Bool-cases (peek s == b'/' && peek_next s == b'/')) [
            | inl k ↦
                let (v, ran, moved, ended) = skip_comment-Ends s in
                skip_comment-behind_blank s c rest e v (slashes_head s c rest e true k) ran
                ∙ skip_rounds-behind_blank fuel v t (sym (skip_slashes fuel s b n k ran) ∙ run)
            | inr k ↦
                ap (behind_blank false) e
                ∙ behind_token c rest (no_space c (peek s) here b n)
                    (slashes_head s c rest e false k)
                ∙ sym e
                ∙ same_end s t (sym (skip_done fuel s (is_token s b n k)) ∙ run)
          ]
        ]
      ]
]

pub skip_white_space-behind_blank :
    (s t : Scanner) → skip_white_space s ≡ some t → behind_blank false s.current ≡ t.current
unfolding skip_white_space
skip_white_space-behind_blank s t run = skip_rounds-behind_blank (rounds s) s t run
