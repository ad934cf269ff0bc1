-- ===== src/Compiler/Scanner/Keywords.antt =====
-- Which words are keywords: `identifier_type` against a table.
use lox_vm.Prelude.{
  ℕ, suc, ◌+◌, ◌-◌, ◌≡◌, refl, sym, ◌∙◌, List, [], ◌∷◌, ◌++◌, Bool, true, false, ◌&&◌, arith, ◌==◌,
  ==_iff, ltb, if◌then◌else◌, length, String, codes, length-append, Bool-cases, inl, inr, take,
  list_eq, drop-length-append,
}
use mathlib.Core.Path.{subst}
use lox_vm.Compiler.Scanner.Tokens.{
  TokenType, Scanner, token_identifier, token_and, token_else, token_false, token_for, token_fun,
  token_if, token_nil, token_or, token_print, token_return, token_true, token_var, token_while,
  token_struct, token_const, token_pub, token_use, token_parallel, token_sync, token_inline,
  token_len,
}
use lox_vm.Compiler.Scanner.{check_keyword, is_long, identifier_type, keyword_switch}

abbrev find_word : List ℕ → List (String × TokenType) → TokenType
find_word w [] = token_identifier
find_word w ((k, type) ∷ table) = if list_eq w (codes k) then type else find_word w table

-- The last two words of the table are not keywords of the language: `iil` and `pen` are read as
-- `nil` and `len`, since the cases of 'i' and 'p' fall through.
abbrev pub table : List (String × TokenType)
table =
    ("and", token_and)
    ∷ ("else", token_else)
    ∷ ("const", token_const)
    ∷ ("inline", token_inline)
    ∷ ("nil", token_nil)
    ∷ ("or", token_or)
    ∷ ("parallel", token_parallel)
    ∷ ("print", token_print)
    ∷ ("pub", token_pub)
    ∷ ("len", token_len)
    ∷ ("return", token_return)
    ∷ ("struct", token_struct)
    ∷ ("sync", token_sync)
    ∷ ("var", token_var)
    ∷ ("while", token_while)
    ∷ ("use", token_use)
    ∷ ("true", token_true)
    ∷ ("false", token_false)
    ∷ ("for", token_for)
    ∷ ("fun", token_fun)
    ∷ ("iil", token_nil)
    ∷ ("pen", token_len)
    ∷ []

-- every word that begins with `if` is read as `if`
abbrev pub keyword : List ℕ → TokenType
keyword w = if list_eq (take 2 w) (codes "if") then token_if else find_word w table

same_text :
    (v r k : List ℕ)
    → (length v == length k && list_eq (take (length k) (v ++ r)) (take (length k) k)) ≡ list_eq v k
same_text [] r [] = refl
same_text [] r (y ∷ k) = ground arith
same_text (x ∷ v) r [] = ground arith
same_text (x ∷ v) r (y ∷ k) = ground (arith, same_text v r k)

length_test : (v r : List ℕ) (i n : ℕ) → (i + length (v ++ r) - length r == i + n) ≡ (length v == n)
length_test v r i n = ground (arith, length-append v r)

-- The test of `check_keyword` for a word that begins with the bytes `p`.
keyword_test :
    (s : Scanner) (p v : List ℕ) (rest : String) (type : TokenType)
    → s.start ≡ p ++ (v ++ s.current)
    → check_keyword s (length p) (length (codes rest)) rest type
      ≡ (if list_eq v (codes rest) then type else token_identifier)
unfolding check_keyword
keyword_test s p v rest type h = simp (
  h,
  length-append p (v ++ s.current),
  drop-length-append p (v ++ s.current),
  length_test v s.current (length p) (length (codes rest)),
  same_text v s.current (codes rest),
)

is_long_test : (s : Scanner) (w : List ℕ) → s.start ≡ w ++ s.current → is_long s ≡ ltb 1 (length w)
unfolding is_long
is_long_test s w h = simp (h, length-append w s.current) (ground arith)

split : (P : ℕ → Type 0) (k c : ℕ) → P k → ((c == k) ≡ false → P c) → P c
split P k c here rest = elim (Bool-cases (c == k)) [
  | inl e ↦ subst P (sym ((==_iff c k).0 e)) here
  | inr e ↦ rest e
]

pick : Bool → TokenType → TokenType
pick b type = if b then type else token_identifier

-- The switch at a word of two bytes or more, over any test that compares the rest of the word.
module _ (check : ℕ → ℕ → String → TokenType → TokenType) (d : ℕ) (v : List ℕ)
    (one : (k : String) (type : TokenType)
      → check 1 (length (codes k)) k type
        ≡ (if list_eq (d ∷ v) (codes k) then type else token_identifier))
    (two : (k : String) (type : TokenType)
      → check 2 (length (codes k)) k type
        ≡ (if list_eq v (codes k) then type else token_identifier)) where
  abbrev Fits : ℕ → Type 0
  Fits c = keyword_switch c d true check ≡ keyword (c ∷ d ∷ v)

  letter_a : Fits b'a'
  unfolding keyword_switch
  letter_a = ground (arith, one "nd" token_and)

  letter_e : Fits b'e'
  unfolding keyword_switch
  letter_e = ground (arith, one "lse" token_else)

  letter_c : Fits b'c'
  unfolding keyword_switch
  letter_c = ground (arith, one "onst" token_const)

  letter_i : Fits b'i'
  unfolding keyword_switch
  letter_i = ground (arith, two "line" token_inline, one "il" token_nil)

  letter_n : Fits b'n'
  unfolding keyword_switch
  letter_n = ground (arith, one "il" token_nil)

  letter_o : Fits b'o'
  unfolding keyword_switch
  letter_o = ground (arith, one "r" token_or)

  letter_p : Fits b'p'
  unfolding keyword_switch
  letter_p = ground (
    arith,
    two "rallel" token_parallel,
    two "int" token_print,
    two "b" token_pub,
    one "en" token_len,
  )

  letter_l : Fits b'l'
  unfolding keyword_switch
  letter_l = ground (arith, one "en" token_len)

  letter_r : Fits b'r'
  unfolding keyword_switch
  letter_r = ground (arith, one "eturn" token_return)

  letter_s : Fits b's'
  unfolding keyword_switch
  letter_s = ground (arith, two "ruct" token_struct, two "nc" token_sync, one "truct" token_struct)

  letter_v : Fits b'v'
  unfolding keyword_switch
  letter_v = ground (arith, one "ar" token_var)

  letter_w : Fits b'w'
  unfolding keyword_switch
  letter_w = ground (arith, one "hile" token_while)

  letter_u : Fits b'u'
  unfolding keyword_switch
  letter_u = ground (arith, one "se" token_use)

  letter_t : Fits b't'
  unfolding keyword_switch
  letter_t = ground (arith, one "rue" token_true)

  letter_f : Fits b'f'
  unfolding keyword_switch
  letter_f = ground (arith, two "lse" token_false, two "r" token_for, two "n" token_fun)

  letter_other :
      (c : ℕ)
      → (c == b'a') ≡ false
      → (c == b'e') ≡ false
      → (c == b'c') ≡ false
      → (c == b'i') ≡ false
      → (c == b'n') ≡ false
      → (c == b'o') ≡ false
      → (c == b'p') ≡ false
      → (c == b'l') ≡ false
      → (c == b'r') ≡ false
      → (c == b's') ≡ false
      → (c == b'v') ≡ false
      → (c == b'w') ≡ false
      → (c == b'u') ≡ false
      → (c == b't') ≡ false
      → (c == b'f') ≡ false
      → Fits c
  unfolding keyword_switch
  letter_other c n_a n_e n_c n_i n_n n_o n_p n_l n_r n_s n_v n_w n_u n_t n_f =
      simp (n_a, n_e, n_c, n_i, n_n, n_o, n_p, n_l, n_r, n_s, n_v, n_w, n_u, n_t, n_f)

  pub switch-keyword : (c : ℕ) → Fits c
  switch-keyword c = split Fits b'a' c letter_a λ n_a. split Fits b'e' c letter_e λ n_e.
      split Fits b'c' c letter_c λ n_c. split Fits b'i' c letter_i λ n_i.
        split Fits b'n' c letter_n λ n_n. split Fits b'o' c letter_o λ n_o.
          split Fits b'p' c letter_p λ n_p. split Fits b'l' c letter_l λ n_l.
            split Fits b'r' c letter_r λ n_r. split Fits b's' c letter_s λ n_s.
              split Fits b'v' c letter_v λ n_v. split Fits b'w' c letter_w λ n_w.
                split Fits b'u' c letter_u λ n_u. split Fits b't' c letter_t λ n_t.
                  split Fits b'f' c letter_f λ n_f.
                    letter_other c n_a n_e n_c n_i n_n n_o n_p n_l n_r n_s n_v n_w n_u n_t n_f

-- The switch at a word of one byte, which is no keyword.
module _ (check : ℕ → ℕ → String → TokenType → TokenType) (d : ℕ)
    (one : (k : String) (type : TokenType)
      → check 1 (length (codes k)) k type
        ≡ (if list_eq [] (codes k) then type else token_identifier)) where
  abbrev FitsOne : ℕ → Type 0
  FitsOne c = keyword_switch c d false check ≡ keyword (c ∷ [])

  one_other :
      (c : ℕ)
      → (c == b'a') ≡ false
      → (c == b'e') ≡ false
      → (c == b'c') ≡ false
      → (c == b'i') ≡ false
      → (c == b'n') ≡ false
      → (c == b'o') ≡ false
      → (c == b'p') ≡ false
      → (c == b'l') ≡ false
      → (c == b'r') ≡ false
      → (c == b's') ≡ false
      → (c == b'v') ≡ false
      → (c == b'w') ≡ false
      → (c == b'u') ≡ false
      → (c == b't') ≡ false
      → (c == b'f') ≡ false
      → FitsOne c
  unfolding keyword_switch
  one_other c n_a n_e n_c n_i n_n n_o n_p n_l n_r n_s n_v n_w n_u n_t n_f =
      simp (n_a, n_e, n_c, n_i, n_n, n_o, n_p, n_l, n_r, n_s, n_v, n_w, n_u, n_t, n_f)

  pub switch-keyword_one : (c : ℕ) → FitsOne c
  unfolding keyword_switch
  switch-keyword_one c = split FitsOne b'a' c (one "nd" token_and) λ n_a.
      split FitsOne b'e' c (one "lse" token_else) λ n_e.
        split FitsOne b'c' c (one "onst" token_const) λ n_c.
          split FitsOne b'i' c (one "il" token_nil) λ n_i.
            split FitsOne b'n' c (one "il" token_nil) λ n_n.
              split FitsOne b'o' c (one "r" token_or) λ n_o.
                split FitsOne b'p' c (one "en" token_len) λ n_p.
                  split FitsOne b'l' c (one "en" token_len) λ n_l.
                    split FitsOne b'r' c (one "eturn" token_return) λ n_r.
                      split FitsOne b's' c (one "truct" token_struct) λ n_s.
                        split FitsOne b'v' c (one "ar" token_var) λ n_v.
                          split FitsOne b'w' c (one "hile" token_while) λ n_w.
                            split FitsOne b'u' c (one "se" token_use) λ n_u.
                              split FitsOne b't' c (one "rue" token_true) λ n_t.
                                split FitsOne b'f' c (refl) λ n_f.
                                  one_other c n_a n_e n_c n_i n_n n_o n_p n_l n_r n_s n_v n_w n_u
                                    n_t n_f

two_letters : (n : ℕ) → ltb 1 (suc (suc n)) ≡ true
two_letters n = ground arith

-- A word is a keyword exactly when it begins with `if` or stands in `table`, and every other word
-- is an identifier.
pub identifier_type-keyword :
    (s : Scanner) (c : ℕ) (w : List ℕ)
    → s.start ≡ (c ∷ w) ++ s.current
    → identifier_type s ≡ keyword (c ∷ w)
unfolding identifier_type
identifier_type-keyword s c [] h =
    simp (h, is_long_test s (c ∷ []) h)
      (switch-keyword_one (check_keyword s) _ (λ k type. keyword_test s (c ∷ []) [] k type h) c)
identifier_type-keyword s c (d ∷ v) h =
    simp (h, is_long_test s (c ∷ d ∷ v) h ∙ two_letters (length v))
      (switch-keyword (check_keyword s) d v (λ k type. keyword_test s (c ∷ []) (d ∷ v) k type h)
        (λ k type. keyword_test s (c ∷ d ∷ []) v k type h) c)
