-- ===== src/Runtime/Vm/Frames/Counting.antt =====
-- The counter of calls and jumps that src/runtime/vm.c keeps of a function.
use lox_vm.Prelude.{ℕ, zero, suc, ◌≤◌, min, ◌≡◌, ap, ◌∙◌, arith}
use lox_vm.Runtime.Vm.Machine.{func_state_not_profiling, FunctionObject, min_calls_to_profile}
use lox_vm.Runtime.Vm.Frames.{increase_n_function_calls, count_if_not_profiling}

-- The counter of a function after a number of calls and jumps of one thread.
pub counted : ℕ → FunctionObject → FunctionObject
counted zero f = f
counted (suc k) f = count_if_not_profiling (counted k f)

once :
    (f : FunctionObject)
    → f.n_calls ≤ min_calls_to_profile
    → ((increase_n_function_calls 0 f).state ≡ f.state)
      × ((increase_n_function_calls 0 f).n_calls ≡ min (suc f.n_calls) min_calls_to_profile)
unfolding increase_n_function_calls
once f h = (ground arith, ground arith)

-- However often one thread calls a function that is not profiled and jumps in it, the function stays not
-- profiled, and its counter is the number of times up to the limit of 50.
pub counted-min :
    (k : ℕ) (f : FunctionObject)
    → f.state ≡ func_state_not_profiling
    → f.n_calls ≡ 0
    → ((counted k f).state ≡ func_state_not_profiling)
      × ((counted k f).n_calls ≡ min k min_calls_to_profile)
unfolding counted increase_n_function_calls
counted-min zero f p q = (p, q)
counted-min (suc k) f p q =
    let (s, n) = counted-min k f p q in
    let bounded : (counted k f).n_calls ≤ min_calls_to_profile = omega (arith, n) in
    let (s₁, n₁) = once (counted k f) bounded in
    let calls : count_if_not_profiling (counted k f) ≡ increase_n_function_calls 0 (counted k f) =
      ap
        (λ s. elim s [
          | func_state_not_profiling ↦ increase_n_function_calls 0 (counted k f)
          | _ ↦ counted k f
        ])
        s in
    (ap (λ g. g.state) calls ∙ s₁ ∙ s, ap (λ g. g.n_calls) calls ∙ n₁ ∙ omega (arith, n))
