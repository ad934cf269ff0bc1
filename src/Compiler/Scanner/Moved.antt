-- ===== src/Compiler/Scanner/Moved.antt =====
-- What a run of src/compiler/bytecode/scanner.c leaves behind: the bytes passed and the lines counted.
use lox_vm.Prelude.{
  ℕ, suc, ◌+◌, ◌<◌, ◌≡◌, refl, ap, sym, ◌∙◌, ◌⊎◌, inl, inr, List, [], ◌∷◌, ◌++◌, append_assoc,
  Option, some, false, arith, ◌==◌, if◌then◌else◌, length, length-append,
}
use lox_vm.Compiler.Scanner.Tokens.{Scanner}
use lox_vm.Compiler.Scanner.{at_the_end, peek, advance, step}

-- the line breaks in a text
abbrev pub newlines : List ℕ → ℕ
newlines [] = 0
newlines (c ∷ w) = if c == b'\n' then suc (newlines w) else newlines w

pub newlines-append : (v w : List ℕ) → newlines (v ++ w) ≡ newlines v + newlines w
newlines-append [] w = omega arith
newlines-append (c ∷ v) w = ground (arith, newlines-append v w)

-- `s'` stands after the bytes `consumed` of `s`, and has counted their line breaks.
pub record Moved (s s' : Scanner) : Type 0 where
  pub consumed : List ℕ
  pub source : s.base_source_code ≡ s'.base_source_code
  pub start : s.start ≡ s'.start
  pub text : s.current ≡ consumed ++ s'.current
  pub line : s'.line ≡ s.line + newlines consumed

pub Moved-refl : (s : Scanner) → Moved s s
Moved-refl s = record {
  consumed = [];
  source = refl;
  start = refl;
  text = refl;
  line = omega arith;
}

pub Moved-trans : {s t u : Scanner} → Moved s t → Moved t u → Moved s u
Moved-trans {s} {t} {u} m n = record {
  consumed = m.consumed ++ n.consumed;
  source = m.source ∙ n.source;
  start = m.start ∙ n.start;
  text = m.text ∙ ap (◌++◌ m.consumed) n.text ∙ sym (append_assoc m.consumed n.consumed u.current);
  line = omega (arith, m.line, n.line, newlines-append m.consumed n.consumed);
}

pub length-Moved :
    {s s' : Scanner} (m : Moved s s') → length s.current ≡ length m.consumed + length s'.current
length-Moved {s} {s'} m = ap length m.text ∙ length-append m.consumed s'.current

-- a run that ends in a later state where `P` holds
abbrev pub Ends : Scanner → Option Scanner → (Scanner → Type 0) → Type 0
Ends s r P = (s' : Scanner) × (r ≡ some s') × Moved s s' × P s'

-- one byte further, over a byte that is no line break
abbrev pub Shorter : Scanner → Scanner → Type 0
Shorter s s' = length s'.current < length s.current

pub List-cases : (l : List ℕ) → (l ≡ []) ⊎ ((c : ℕ) × (rest : List ℕ) × (l ≡ c ∷ rest))
List-cases [] = inl refl
List-cases (c ∷ rest) = inr (c, rest, refl)

pub advance-cons :
    (s : Scanner) (c : ℕ) (rest : List ℕ)
    → s.current ≡ c ∷ rest
    → advance s ≡ some (c, record s { current = rest })
unfolding advance
advance-cons s c rest e = rw e

pub cons-Moved :
    (s : Scanner) (c : ℕ) (rest : List ℕ)
    → s.current ≡ c ∷ rest
    → (c == b'\n') ≡ false
    → Moved s (record s { current = rest })
cons-Moved s c rest e n = record {
  consumed = c ∷ [];
  source = refl;
  start = refl;
  text = e;
  line = rw n (omega arith);
}

-- A step before the terminator stays inside the source.
pub step-Ends :
    (s : Scanner) → at_the_end s ≡ false → (peek s == b'\n') ≡ false → Ends s (step s) (Shorter s)
unfolding step at_the_end peek
step-Ends s more n = elim (List-cases s.current) [
  | inl e ↦ absurd (ground arith)
  | inr (c, rest, e) ↦
      let same : (c == b'\n') ≡ false = rw e at n in
      (
        record s { current = rest },
        rw (advance-cons s c rest e),
        cons-Moved s c rest e same,
        omega (arith, ap length e),
      )
]
