-- ===== src/Runtime/Vm/Objects/Arrays.antt =====
-- Reads and writes of the elements of an array of src/runtime/vm.c.
use lox_vm.Prelude.{
  ℕ, ◌<◌, ◌≡◌, refl, sym, ap, ◌∙◌, Bool, true, false, Option, none, some, List, [], ◌∷◌, arith, leb,
  ◌==◌, if◌then◌else◌, length, get_or, set, length-set, get_or-set_self,
}
use lox_vm.Shared.Values.{as_number, is_number, is_object, as_object, obj_array}
use lox_vm.Runtime.Vm.Outcome.{Panic, Outcome, ok, panic, ◌>>=◌, index_out_of_bounds}
use lox_vm.Runtime.Vm.Machine.{find_key, put_key, Object, array_object, VmThread}
use lox_vm.Runtime.Vm.Stack.{pop_and_check_object, pop_and_check_number, object_type}
use lox_vm.Runtime.Vm.Stack.Operands.{
  get_elem?-get_or, IsInBounds, operands, popped, operands-popped, operands-push_stack_vm,
}
use lox_vm.Runtime.Vm.Objects.{get_array_element, set_array_element}

module _ {ℓ} {A : Type ℓ} where
  here : (k : ℕ) (a : A) (o : Option A) → (if k == k then some a else o) ≡ some a
  here k a o = ground arith

  pub find_key-put_key :
      (table : List (ℕ × A)) (k : ℕ) (a : A) → find_key (put_key table k a) k ≡ some a
  find_key-put_key [] k a = here k a none
  find_key-put_key ((l, b) ∷ table) k a = ground (arith, find_key-put_key table k a)

-- An array on the top of the stack.
abbrev pub HasArray : VmThread → ℕ → List ℕ → Type 0
HasArray t array xs =
    (is_object array ≡ true) × (find_key t.heap (as_object array) ≡ some (array_object xs))

popped_array :
    (t : VmThread) (array : ℕ) (xs s : List ℕ)
    → IsInBounds t
    → operands t ≡ array ∷ s
    → HasArray t array xs
    → pop_and_check_object obj_array t ≡ ok (as_object array, array_object xs, popped t)
unfolding pop_and_check_object object_type
popped_array t array xs s h p (o, found) =
    let (pop, rest, small) = operands-popped t array s h p in rw (pop, o, found) refl

popped_number :
    (t : VmThread) (n : ℕ) (s : List ℕ)
    → IsInBounds t
    → operands t ≡ n ∷ s
    → is_number n ≡ true
    → pop_and_check_number t ≡ ok (as_number n, popped t)
unfolding pop_and_check_number
popped_number t n s h p number =
    let (pop, rest, small) = operands-popped t n s h p in rw (pop, number) refl

guarded {ℓ κ} :
    {A : Type ℓ} {B : Type κ} (b : Bool) (p : Panic) (x : Outcome A) (f : A → Outcome B)
    {y : Outcome B}
    → (b ≡ false → (x >>= f) ≡ y)
    → ((if b then panic p else x) >>= f) ≡ (if b then panic p else y)
guarded true p x f h = refl
guarded false p x f h = h refl

inside : (l i : ℕ) → leb l i ≡ false → i < l
inside l i q = ground arith

-- An array and a number on the top of the stack are replaced by the element with this number. A number
-- that is not below the length of the array is a panic; there is no access outside of the array.
pub get_array_element-operands :
    (t : VmThread) (array n : ℕ) (xs s : List ℕ)
    → IsInBounds t
    → operands t ≡ array ∷ n ∷ s
    → HasArray t array xs
    → is_number n ≡ true
    → (get_array_element t >>= λ u. ok (operands u)) ≡ (
        if leb (length xs) (as_number n)
        then panic index_out_of_bounds
        else ok (get_or xs (as_number n) 0 ∷ s))
unfolding get_array_element
get_array_element-operands t array n xs s h p has number =
    let (pop, rest, small) = operands-popped t array (n ∷ s) h p in
    let (pop₂, rest₂, small₂) = operands-popped (popped t) n s (omega (arith, small)) rest in
    rw
      (
        popped_array t array xs (n ∷ s) h p has,
        popped_number (popped t) n s (omega (arith, small)) rest number,
      )
      (guarded (leb (length xs) (as_number n)) index_out_of_bounds _ _ (λ q.
        rw (get_elem?-get_or xs (as_number n) (inside (length xs) (as_number n) q)) (
          operands-push_stack_vm (get_or xs (as_number n) 0) (popped (popped t)) small₂
          ∙ ap (λ s. ok (get_or xs (as_number n) 0 ∷ s)) rest₂)))

-- What an assignment to an element of an array leaves behind.
abbrev pub assigned : VmThread → ℕ → ℕ → ℕ → List ℕ → VmThread
assigned t array n v xs = record (popped (popped (popped t))) {
  heap = put_key t.heap (as_object array) (array_object (set xs (as_number n) v));
}

set_array_element-eq :
    (t : VmThread) (array n v : ℕ) (xs s : List ℕ)
    → IsInBounds t
    → operands t ≡ array ∷ v ∷ n ∷ s
    → HasArray t array xs
    → set_array_element t ≡ (
        if leb (length xs) (as_number n)
        then panic index_out_of_bounds
        else ok (assigned t array n v xs))
unfolding set_array_element
set_array_element-eq t array n v xs s h p has =
    let (pop, rest, small) = operands-popped t array (v ∷ n ∷ s) h p in
    let (pop₂, rest₂, small₂) = operands-popped (popped t) v (n ∷ s) (omega (arith, small)) rest in
    let (pop₃, rest₃, small₃) =
      operands-popped (popped (popped t)) n s (omega (arith, small₂)) rest₂ in
    rw (popped_array t array xs (v ∷ n ∷ s) h p has, pop₂, pop₃) refl

accepted {ℓ} :
    {A : Type ℓ} (l i : ℕ) (p : Panic) (x : Outcome A)
    → i < l
    → (if leb l i then panic p else x) ≡ x
accepted l i p x h = ground arith

heap_of : List (ℕ × Object) → Outcome (List (ℕ × Object)) → List (ℕ × Object)
heap_of d (ok h) = h
heap_of d _ = d

-- After a value was assigned to an element of an array, in any thread that has the objects that the
-- assignment left, the element is read as that value.
pub get_array_element-set_array_element :
    (t u : VmThread) (array n v : ℕ) (xs s s' : List ℕ)
    → IsInBounds t
    → operands t ≡ array ∷ v ∷ n ∷ s
    → HasArray t array xs
    → is_number n ≡ true
    → as_number n < length xs
    → IsInBounds u
    → operands u ≡ array ∷ n ∷ s'
    → (set_array_element t >>= λ w. ok w.heap) ≡ ok u.heap
    → (get_array_element u >>= λ w. ok (operands w)) ≡ ok (v ∷ s')
unfolding heap_of
get_array_element-set_array_element t u array n v xs s s' h p has number lt h' p' same =
    let heap : put_key t.heap (as_object array) (array_object (set xs (as_number n) v)) ≡ u.heap =
      ap (heap_of u.heap) (
        sym (
          ap (λ r. r >>= λ w. ok w.heap)
            (set_array_element-eq t array n v xs s h p has
              ∙ accepted (length xs) (as_number n) _ _ lt))
        ∙ same) in
    let found : find_key u.heap (as_object array) ≡ some (array_object (set xs (as_number n) v)) =
      ap (λ m. find_key m (as_object array)) (sym heap)
      ∙ find_key-put_key t.heap (as_object array) (array_object (set xs (as_number n) v)) in
    get_array_element-operands u array n (set xs (as_number n) v) s' h' p' (has.0, found) number
    ∙ accepted (length (set xs (as_number n) v)) (as_number n) _ _
        (omega (arith, lt, length-set xs (as_number n) v))
    ∙ ap (λ x. ok (x ∷ s')) (get_or-set_self xs (as_number n) v 0 lt)
