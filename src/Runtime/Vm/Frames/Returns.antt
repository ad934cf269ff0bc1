-- ===== src/Runtime/Vm/Frames/Returns.antt =====
-- A call of src/runtime/vm.c and its return.
use lox_vm.Prelude.{
  ℕ, zero, suc, ◌+◌, ◌-◌, ◌≤◌, ◌<◌, ◌≡◌, refl, ap, ap₂, ◌∙◌, ◌≢◌, List, ◌∷◌, arith, length, get_or,
}
use lox_vm.Runtime.Vm.Outcome.{Outcome, ok, fault, ◌>>=◌}
use lox_vm.Runtime.Vm.Machine.{
  FunctionState, func_state_not_profiling, func_state_profiling, func_state_jit_compiling,
  func_state_jit_compiled, func_state_jit_uncompilable, FunctionObject, CallFrame, VmThread,
}
use lox_vm.Runtime.Vm.Stack.{pop_stack_vm, pop_at}
use lox_vm.Runtime.Vm.Stack.Operands.{
  get_elem?-get_or, below_top, operands, push_stack_vm-eq, operands-push,
}
use lox_vm.Runtime.Vm.Frames.{
  get_current_frame, function_at, place, setup_call_frame_function, restore_prev_call_frame,
  profile_if_not_profiling, return_function,
}

abbrev pub map_outcome {ℓ κ} : {A : Type ℓ} {B : Type κ} → (A → B) → Outcome A → Outcome B
map_outcome f r = r >>= λ a. ok (f a)

-- The frame of a call at a place of its code.
abbrev pub called : ℕ → FunctionObject → VmThread → ℕ → CallFrame
called address f t pc = record {
  function = address;
  code = f.code;
  pc = pc;
  slots = t.esp - f.n_arguments;
}

abbrev pub frames_and_operands : VmThread → List CallFrame × List ℕ
frames_and_operands t = (t.frames, operands t)

below_top_congr :
    (n : ℕ) (xs ys : List ℕ)
    → ((i : ℕ) → i < n → get_or xs i 0 ≡ get_or ys i 0)
    → below_top n xs ≡ below_top n ys
unfolding below_top
below_top_congr zero xs ys h = refl
below_top_congr (suc n) xs ys h =
    ap₂ ◌∷◌ (h n (omega arith)) (below_top_congr n xs ys (λ i p. h i (omega arith)))

not_recorded :
    (caller : FunctionObject) (u : VmThread)
    → caller.state ≢ func_state_not_profiling
    → profile_if_not_profiling caller u ≡ ok u
not_recorded caller u h = from caller.state refl
  where
    from : (s : FunctionState) → caller.state ≡ s → profile_if_not_profiling caller u ≡ ok u
    from func_state_not_profiling p = absurd (h p)
    from func_state_profiling p = rw p refl
    from func_state_jit_compiling p = rw p refl
    from func_state_jit_compiled p = rw p refl
    from func_state_jit_uncompilable p = rw p refl

module _ (address : ℕ) (f : FunctionObject) (t u : VmThread) (caller_frame : CallFrame)
    (frames : List CallFrame) (caller : FunctionObject) (e pc : ℕ) where
  place-called :
      f.n_arguments < t.esp → place (called address f t pc) 0 ≡ ok (t.esp - f.n_arguments - 1)
  unfolding place
  place-called small =
      ap (λ n. elim n [ zero ↦ fault | suc i ↦ ok i ])
        (let base : t.esp - f.n_arguments + 0 ≡ suc (t.esp - f.n_arguments - 1) = omega arith in
          base)

  abbrev base : ℕ
  base = t.esp - f.n_arguments - 1

  same_heap :
      (w : VmThread)
      → function_at u caller_frame.function ≡ ok caller
      → function_at (record u { esp = w.esp; frames = w.frames }) caller_frame.function ≡ ok caller
  unfolding function_at
  same_heap w h = h

  -- A call sets up a frame at the beginning of the code of the function. If later the thread is back in
  -- that frame, wherever in its code, has a value on the top and has left the values below the function
  -- as they were, and the function it returns to is profiled or compiled, then a return leaves the frames
  -- of before the call, and in place of the function and its arguments the value.
  pub return-setup :
      f.n_arguments < t.esp
      → t.frames ≡ caller_frame ∷ frames
      → u.frames ≡ called address f t pc ∷ t.frames
      → u.esp ≡ suc e
      → e < length u.stack
      → t.esp ≤ length u.stack
      → ((i : ℕ) → i < t.esp - f.n_arguments - 1 → get_or u.stack i 0 ≡ get_or t.stack i 0)
      → function_at u caller_frame.function ≡ ok caller
      → caller.state ≢ func_state_not_profiling
      → (map_outcome (λ w. w.frames) (setup_call_frame_function address f t)
          ≡ ok (called address f t 0 ∷ t.frames))
        × (map_outcome frames_and_operands (return_function u)
            ≡ ok (t.frames, get_or u.stack e 0 ∷ below_top (t.esp - f.n_arguments - 1) t.stack))
  unfolding setup_call_frame_function return_function get_current_frame restore_prev_call_frame
      pop_stack_vm pop_at
  return-setup small tf uf ue ub tb same at_caller state =
      let w : VmThread = record u { esp = base; frames = caller_frame ∷ frames } in
      (
        ground arith,
        rw (uf, ue, get_elem?-get_or u.stack e ub, tf)
            (rw (place-called small) (
              rw
                (
                  same_heap w at_caller,
                  not_recorded caller w state,
                  push_stack_vm-eq (get_or u.stack e 0) w (omega arith),
                )
                (ap (λ s. ok (caller_frame ∷ frames, s))
                  (operands-push (get_or u.stack e 0) base u.stack (omega arith)
                    ∙ ap (◌∷◌ (get_or u.stack e 0)) (below_top_congr base u.stack t.stack same))))),
      )
