-- ===== src/Runtime/Vm/Stack/Operands.antt =====
-- The stack as the list of its operands, the top first.
use lox_vm.Prelude.{
  ℕ, zero, suc, ◌-◌, ◌≤◌, ◌<◌, ◌≡◌, refl, sym, ap, ap₂, ◌∙◌, List, [], ◌∷◌, some, get_elem?, get_or,
  drop, get_or-set_ne, get_or-set_self, set, length, arith,
}
use lox_vm.Runtime.Vm.Outcome.{ok, ◌>>=◌}
use lox_vm.Runtime.Vm.Machine.{VmThread}
use lox_vm.Runtime.Vm.Stack.{push_stack_vm, pop_stack_vm, pop_at}

unfoldable pub below_top : ℕ → List ℕ → List ℕ
below_top zero stack = []
below_top (suc e) stack = get_or stack e 0 ∷ below_top e stack

abbrev pub operands : VmThread → List ℕ
operands thread = below_top thread.esp thread.stack

abbrev pub IsInBounds : VmThread → Type 0
IsInBounds thread = thread.esp ≤ length thread.stack

pub below_top-set :
    (e i v : ℕ) (stack : List ℕ) → e ≤ i → below_top e (set stack i v) ≡ below_top e stack
unfolding below_top
below_top-set zero i v stack h = refl
below_top-set (suc e) i v stack h =
    ap₂ ◌∷◌ (get_or-set_ne stack i e v 0 (λ p. absurd (omega (arith, p))))
      (below_top-set e i v stack (omega arith))

pub get_elem?-get_or : (xs : List ℕ) (i : ℕ) → i < length xs → get_elem? xs i ≡ some (get_or xs i 0)
get_elem?-get_or [] i h = absurd (omega arith)
get_elem?-get_or (x ∷ xs) zero h = refl
get_elem?-get_or (x ∷ xs) (suc i) h = get_elem?-get_or xs i (omega arith)

-- The operations of the abstract stack.
abbrev pub with_stack : VmThread → ℕ → List ℕ → VmThread
with_stack thread e stack = record thread { stack = stack; esp = e }

pub push_stack_vm-eq :
    (v : ℕ) (thread : VmThread)
    → thread.esp < length thread.stack
    → push_stack_vm v thread
      ≡ ok (with_stack thread (suc thread.esp) (set thread.stack thread.esp v))
unfolding push_stack_vm
push_stack_vm-eq v thread h = ground arith

pub operands-push :
    (v e : ℕ) (stack : List ℕ)
    → e < length stack
    → below_top (suc e) (set stack e v) ≡ v ∷ below_top e stack
unfolding below_top
operands-push v e stack h =
    ap₂ ◌∷◌ (get_or-set_self stack e v 0 h) (below_top-set e e v stack (omega arith))

pub pop_stack_vm-eq :
    (e : ℕ) (thread : VmThread)
    → thread.esp ≡ suc e
    → e < length thread.stack
    → pop_stack_vm thread ≡ ok (get_or thread.stack e 0, with_stack thread e thread.stack)
unfolding pop_stack_vm pop_at
pop_stack_vm-eq e thread p h = rw (p, get_elem?-get_or thread.stack e h) refl

-- A pop takes the first operand.
abbrev pub popped : VmThread → VmThread
popped thread = record thread { esp = thread.esp - 1 }

pub operands-popped :
    (t : VmThread) (v : ℕ) (s : List ℕ)
    → IsInBounds t
    → operands t ≡ v ∷ s
    → (pop_stack_vm t ≡ ok (v, popped t)) × (operands (popped t) ≡ s) × (t.esp - 1 < length t.stack)
unfolding below_top
operands-popped t v s h p = from t.esp refl
  where
    from :
        (e : ℕ)
        → t.esp ≡ e
        → (pop_stack_vm t ≡ ok (v, popped t))
          × (operands (popped t) ≡ s)
          × (t.esp - 1 < length t.stack)
    from zero q = absurd (omega (arith, ap length p, ap (λ e. length (below_top e t.stack)) q))
    from (suc e) q =
        let same : below_top (suc e) t.stack ≡ v ∷ s = ap (λ e. below_top e t.stack) (sym q) ∙ p in
        let less : e ≡ t.esp - 1 = omega (arith, q) in
        (
          pop_stack_vm-eq e t q (omega (arith, q))
              ∙ ap₂ (λ v e. ok (v, with_stack t e t.stack)) (ap (λ xs. get_or xs 0 0) same) less,
          ap (λ e. below_top e t.stack) (sym less) ∙ ap (drop 1) same,
          omega (arith, q),
        )

-- The operands after a push.
pub operands-push_stack_vm :
    (v : ℕ) (t : VmThread)
    → t.esp < length t.stack
    → (push_stack_vm v t >>= λ u. ok (operands u)) ≡ ok (v ∷ operands t)
operands-push_stack_vm v t h = rw (push_stack_vm-eq v t h) (ap ok (operands-push v t.esp t.stack h))
