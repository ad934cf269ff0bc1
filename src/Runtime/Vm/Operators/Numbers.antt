-- ===== src/Runtime/Vm/Operators/Numbers.antt =====
-- The numbers of src/runtime/vm.c: words of 64 bits that are read as numbers of double precision.
use lox_vm.Prelude.{
  ℕ, zero, suc, ◌+◌, ◌-◌, ◌*◌, ◌/◌, ◌%◌, ◌^◌, ◌≤◌, ◌<◌, ◌≡◌, refl, ap, ◌∙◌, Bool, true, ◌&&◌, ◌||◌,
  List, ◌∷◌, arith, ltb, ◌==◌, if◌then◌else◌, length,
}
use native.Mathlib.Nat.{mod-lt}
use lox_vm.Prelude.Masks.{power_positive}
use lox_vm.Shared.Values.{excess, nearest, as_number, is_number, is_object}
use lox_vm.Shared.Values.Classes.{as_number_small, is_number_iff, is_object_iff}
use lox_vm.Shared.Bytecode.{op_negate}
use lox_vm.Runtime.Vm.Outcome.{Outcome, ok, ◌>>=◌}
use lox_vm.Runtime.Vm.Machine.{VmThread, Services}
use lox_vm.Runtime.Vm.Stack.Operands.{operands}
use lox_vm.Runtime.Vm.Operators.Refinement.{execute-on_operands, negate_op, on_operands}
use lox_vm.Runtime.Vm.Step.{execute}

negated :
    (n : ℕ) (s : List ℕ)
    → is_number n ≡ true
    → as_number n ≡ n
    → 0 < n
    → on_operands op_negate (n ∷ s) ≡ ok ((2 ^ 64 - n) ∷ s)
negated n s number exact pos = rw (number, exact) (ap (λ v. ok (v ∷ s)) (omega arith))

-- The negation of a number from 1 to 2 ^ 50 leaves a word of the class of the objects.
pub execute-is_object :
    (services : Services) (run : VmThread → Outcome VmThread) (t : VmThread) (n : ℕ) (s : List ℕ)
    → t.esp < length t.stack
    → operands t ≡ n ∷ s
    → 0 < n
    → n ≤ 2 ^ 50
    → ((execute services run op_negate t >>= λ u. ok (operands u)) ≡ ok ((2 ^ 64 - n) ∷ s))
      × (is_object (2 ^ 64 - n) ≡ true)
execute-is_object services run t n s h p pos small =
    let number : is_number n ≡ true = (is_number_iff n).1 (omega arith) in
    (
      execute-on_operands services run negate_op t h
          ∙ ap (on_operands op_negate) p
          ∙ negated n s number (as_number_small n (omega arith)) pos,
      (is_object_iff (2 ^ 64 - n) (omega arith)).1 (omega arith),
    )

-- The distance of two numbers.
abbrev pub distance : ℕ → ℕ → ℕ
distance a b = (a - b) + (b - a)

rounded :
    (low high half r v : ℕ) (is_odd : Bool)
    → v ≡ low + r
    → high ≡ low + 2 * half
    → r < 2 * half
    → distance (if ltb half r || (r == half && is_odd) then high else low) v ≤ half
rounded low high half r v is_odd p q h = ground arith

remainder : (k v : ℕ) → v % 2 ^ suc k < 2 * 2 ^ k
remainder k v = omega (arith, mod-lt v (power_positive (suc k)))

nearest-distance : (k v : ℕ) → distance (nearest (suc k) v) v ≤ 2 ^ k
unfolding nearest
nearest-distance k v =
    rounded (v / 2 ^ suc k * 2 ^ suc k) ((v / 2 ^ suc k + 1) * 2 ^ suc k) (2 ^ k) (v % 2 ^ suc k) v
      (v / 2 ^ suc k % 2 == 1) (grind arith) (grind arith) (remainder k v)

excess_low : (k v e : ℕ) → excess k v ≡ suc e → 2 ^ 53 * 2 ^ e ≤ v
unfolding excess
excess_low zero v e h = absurd (omega (arith, h))
excess_low (suc k) v zero h = ground arith
excess_low (suc k) v (suc e) h =
    omega (arith, excess_low k (v / 2) e (rest (excess k (v / 2)) v e h))
  where
    rest : (x v e : ℕ) → (if ltb v (2 ^ 53) then 0 else suc x) ≡ suc (suc e) → x ≡ suc e
    rest x v e h = ground arith

-- Reading a word as a number changes it by at most its 2 ^ 53rd part, and not at all below 2 ^ 53.
pub as_number-distance :
    (v : ℕ) → (2 ^ 53 * distance (as_number v) v ≤ v) × (v < 2 ^ 53 → as_number v ≡ v)
unfolding as_number nearest
as_number-distance v = (from (excess 11 v) refl, as_number_small v)
  where
    from : (x : ℕ) → excess 11 v ≡ x → 2 ^ 53 * distance (nearest (excess 11 v) v) v ≤ v
    from zero p = rw p (omega arith)
    from (suc e) p = rw p (omega (arith, excess_low 11 v e p, nearest-distance e v))
