-- ===== src/Runtime/Vm/Calls/Arguments.antt =====
-- The arguments of a call of src/runtime/vm.c, on the thread itself and on a new one.
use lox_vm.Prelude.{
  ℕ, zero, suc, ◌-◌, ◌≤◌, ◌<◌, ◌≡◌, refl, ap, ◌∙◌, Option, none, some, List, [], ◌∷◌, ◌++◌, arith,
  ltb, if◌then◌else◌, length, get_or, set, take, drop,
}
use lox_vm.Runtime.Vm.Outcome.{ok, fault}
use lox_vm.Runtime.Vm.Machine.{
  NewThread, ChildSlot, empty_slot, terminated_gc_done, child, VmThread,
}
use lox_vm.Runtime.Vm.Stack.{peek_vm}
use lox_vm.Runtime.Vm.Stack.Operands.{below_top, operands, get_elem?-get_or}
use lox_vm.Runtime.Vm.Calls.{copy_stack_from_esp, try_add_child_to_parent_list}

get_or-below_top :
    (e i : ℕ) (st : List ℕ) → i < e → get_or (below_top e st) i 0 ≡ get_or st (e - 1 - i) 0
unfolding below_top
get_or-below_top zero i st h = absurd (omega arith)
get_or-below_top (suc e) zero st h =
    ap (λ j. get_or st j 0) (let same : e ≡ suc e - 1 - 0 = omega arith in same)
get_or-below_top (suc e) (suc i) st h =
    get_or-below_top e i st (omega arith)
    ∙ ap (λ j. get_or st j 0) (let same : e - 1 - i ≡ suc e - 1 - suc i = omega arith in same)

peek_vm-operands :
    (i : ℕ) (t : VmThread)
    → i < t.esp
    → t.esp ≤ length t.stack
    → peek_vm i t ≡ ok (get_or (operands t) i 0)
unfolding peek_vm
peek_vm-operands i t h k =
    rw (get_elem?-get_or t.stack (t.esp - 1 - i) (omega arith), get_or-below_top t.esp i t.stack h)
      (ground arith)

length-below_top : (e : ℕ) (st : List ℕ) → length (below_top e st) ≡ e
unfolding below_top
length-below_top zero st = refl
length-below_top (suc e) st = ap suc (length-below_top e st)

length-mixed :
    (i : ℕ) (xs ys : List ℕ)
    → i ≤ length xs
    → i ≤ length ys
    → length (take i xs ++ drop i ys) ≡ length ys
length-mixed zero xs ys h k = refl
length-mixed (suc i) [] ys h k = absurd (omega arith)
length-mixed (suc i) (x ∷ xs) [] h k = absurd (omega arith)
length-mixed (suc i) (x ∷ xs) (y ∷ ys) h k =
    ap suc (length-mixed i xs ys (omega arith) (omega arith))

set-mixed :
    (i : ℕ) (xs ys : List ℕ)
    → i < length xs
    → i < length ys
    → set (take i xs ++ drop i ys) i (get_or xs i 0) ≡ take (suc i) xs ++ drop (suc i) ys
set-mixed i [] ys h k = absurd (omega arith)
set-mixed i (x ∷ xs) [] h k = absurd (omega arith)
set-mixed zero (x ∷ xs) (y ∷ ys) h k = refl
set-mixed (suc i) (x ∷ xs) (y ∷ ys) h k = ap (◌∷◌ x) (set-mixed i xs ys (omega arith) (omega arith))

-- A new thread finds the operands of its caller from the bottom of its stack up in the order from the top
-- of the caller's stack down, so that the last argument comes first; the rest of its stack is unchanged.
pub copy_stack_from_esp-operands :
    (n : ℕ) (t : VmThread) (to : List ℕ)
    → n ≤ t.esp
    → t.esp ≤ length t.stack
    → n ≤ length to
    → copy_stack_from_esp n t to ≡ ok (take n (operands t) ++ drop n to)
unfolding copy_stack_from_esp
copy_stack_from_esp-operands zero t to h k l = refl
copy_stack_from_esp-operands (suc i) t to h k l =
    let mixed : List ℕ = take i (operands t) ++ drop i to in
    let size : length mixed ≡ length to =
      length-mixed i (operands t) to (omega (arith, length-below_top t.esp t.stack))
        (omega arith) in
    let written : set mixed i (get_or (operands t) i 0)
        ≡ take (suc i) (operands t) ++ drop (suc i) to =
      set-mixed i (operands t) to (omega (arith, length-below_top t.esp t.stack)) l in
    rw (copy_stack_from_esp-operands i t to (omega arith) k (omega arith), peek_vm-operands i t h k)
      (inside i (length mixed) (omega (arith, size)) ∙ ap ok written)
  where
    inside : (i n : ℕ) {x : List ℕ} → i < n → (if ltb i n then ok x else fault) ≡ ok x
    inside i n h = ground arith

-- The slots that are occupied.
abbrev pub occupied : List ChildSlot → ℕ
occupied [] = 0
occupied (child new ∷ slots) = suc (occupied slots)
occupied (_ ∷ slots) = occupied slots

-- A new child takes one slot more and no new slot, or there is none left and all slots are taken.
abbrev pub TakesOneSlot : List ChildSlot → Option (List ChildSlot) → Type 0
TakesOneSlot slots none = occupied slots ≡ length slots
TakesOneSlot slots (some slots') =
    (length slots' ≡ length slots) × (occupied slots' ≡ suc (occupied slots))

-- The search for a slot takes exactly one slot more and keeps their number, or it finds none, and then
-- every slot has a child that was not collected.
pub try_add_child_to_parent_list-TakesOneSlot :
    (new : NewThread) (slots : List ChildSlot)
    → TakesOneSlot slots (try_add_child_to_parent_list new slots)
unfolding try_add_child_to_parent_list
try_add_child_to_parent_list-TakesOneSlot new [] = refl
try_add_child_to_parent_list-TakesOneSlot new (empty_slot ∷ slots) = (refl, refl)
try_add_child_to_parent_list-TakesOneSlot new (terminated_gc_done ∷ slots) = (refl, refl)
try_add_child_to_parent_list-TakesOneSlot new (child other ∷ slots) =
    behind (try_add_child_to_parent_list new slots)
      (try_add_child_to_parent_list-TakesOneSlot new slots)
  where
    behind :
        (o : Option (List ChildSlot))
        → TakesOneSlot slots o
        → TakesOneSlot
            (child other ∷ slots)
            (elim o [ none ↦ none | some slots ↦ some (child other ∷ slots) ])
    behind none h = ap suc h
    behind (some slots') (h, k) = (ap suc h, ap suc k)
