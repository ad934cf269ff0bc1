-- ===== src/Runtime/Vm/Step/Framed.antt =====
-- The frames of a thread of src/runtime/vm.c under the jumps and the return.
use lox_vm.Prelude.{
  ℕ, ◌+◌, ◌-◌, ◌≤◌, ◌≡◌, refl, ap, Bool, true, false, List, [], ◌∷◌, arith, leb, if◌then◌else◌,
  length,
}
use lox_vm.Shared.Values.{cast_to_boolean}
use lox_vm.Shared.Bytecode.{opcode, op_eof}
use lox_vm.Runtime.Vm.Outcome.{
  Outcome, ok, fault, ◌>>=◌, Holds, returns, panics, faults, goes_on, Holds-bind,
}
use lox_vm.Runtime.Vm.Machine.{
  FunctionObject, FunctionState, CallFrame, VmThread, frame_max, func_state_not_profiling,
}
use lox_vm.Runtime.Vm.Stack.{pop_stack_vm}
use lox_vm.Runtime.Vm.Frames.{
  read_u16, set_current_frame, move_pc, count_jump, jump, jump_if_false, loop,
  restore_prev_call_frame, profile_returned_value, profile_if_not_profiling, return_function,
  function_at, place,
}
use lox_vm.Runtime.Vm.Step.Advance.{
  Advances, Moves, Reads, advance, Holds-access, Holds-if, push-Moves, pop-Reads, current-Holds,
  u16-Reads,
}

abbrev pub IsFramed : VmThread → Type 0
IsFramed t = length t.frames ≤ frame_max

pub length-advance : (n : ℕ) (frames : List CallFrame) → length (advance n frames) ≡ length frames
length-advance n [] = refl
length-advance n (frame ∷ frames) = refl

pub Advances-IsFramed : {n : ℕ} {t u : VmThread} → IsFramed t → Advances n t u → IsFramed u
Advances-IsFramed {n = n} {t = t} h p =
    omega (arith, h, ap length p.frames_eq, length-advance n t.frames)

pub Moves-IsFramed :
    {n : ℕ} {t : VmThread} {r : Outcome VmThread} → IsFramed t → Moves n t r → Holds IsFramed r
Moves-IsFramed h (returns p) = returns (Advances-IsFramed h p)
Moves-IsFramed h panics = panics
Moves-IsFramed h faults = faults
Moves-IsFramed h goes_on = goes_on

-- After a read the thread is framed.
module _ {ℓ} {A : Type ℓ} {n : ℕ} (t : VmThread) (r : Outcome (A × VmThread))
    (f : A × VmThread → Outcome VmThread) where
  pub after :
      IsFramed t
      → Reads n t r
      → ((a : A) (u : VmThread) → IsFramed u → Holds IsFramed (f (a, u)))
      → Holds IsFramed (r >>= f)
  after h p k = Holds-bind p (λ x q. k x.0 x.1 (Advances-IsFramed h q))

pub set_current_frame-IsFramed :
    (t : VmThread) (frame : CallFrame) → IsFramed t → IsFramed (set_current_frame t frame)
set_current_frame-IsFramed t frame h = from t.frames h
  where
    from :
        (fs : List CallFrame)
        → length fs ≤ frame_max
        → IsFramed (elim fs [ [] ↦ t | _ ∷ frames ↦ record t { frames = frame ∷ frames } ])
    from [] k = h
    from (_ ∷ frames) k = k

pub move_pc-IsFramed :
    (to : ℕ → Outcome ℕ) (t : VmThread) → IsFramed t → Holds IsFramed (move_pc to t)
move_pc-IsFramed to t h = current-Holds t _ (λ frame frames p.
    Holds-access (to frame.pc) _ (λ pc. returns (set_current_frame-IsFramed t _ h)))

pub count_jump-IsFramed : (t : VmThread) → IsFramed t → Holds IsFramed (count_jump t)
unfolding count_jump
count_jump-IsFramed t h =
    current-Holds t _
      (λ frame frames p. Holds-access (function_at t frame.function) _ (λ f. returns h))

pub jump-IsFramed : (t : VmThread) → IsFramed t → Holds IsFramed (jump t)
unfolding jump
jump-IsFramed t h = Holds-bind (count_jump-IsFramed t h) (λ t h.
    after t (read_u16 t) _ h (u16-Reads t)
      (λ offset t h. move_pc-IsFramed (λ pc. ok (pc + offset)) t h))

pub loop-IsFramed : (t : VmThread) → IsFramed t → Holds IsFramed (loop t)
unfolding loop
loop-IsFramed t h = Holds-bind (count_jump-IsFramed t h) (λ t h.
    after t (read_u16 t) _ h (u16-Reads t) (λ offset t h.
      move_pc-IsFramed (λ pc. if leb offset pc then ok (pc - offset) else fault) t h))

pub jump_if_false-IsFramed : (t : VmThread) → IsFramed t → Holds IsFramed (jump_if_false t)
unfolding jump_if_false
jump_if_false-IsFramed t h = Holds-bind (count_jump-IsFramed t h) (λ t h.
    after t (pop_stack_vm t) _ h (pop-Reads t) (λ v t h.
      Holds-if (cast_to_boolean v) (move_pc-IsFramed (λ pc. ok (pc + 2)) t h) (
        after t (read_u16 t) (λ x. move_pc (λ pc. ok (pc + x.0)) x.1) h (u16-Reads t)
          (λ offset t h. move_pc-IsFramed (λ pc. ok (pc + offset)) t h))))

pub restore-IsFramed :
    (t : VmThread)
    → IsFramed t
    → Holds {A = Bool × VmThread} (λ r. IsFramed r.1) (restore_prev_call_frame t)
unfolding restore_prev_call_frame
restore-IsFramed t h = from t.frames h
  where
    from :
        (fs : List CallFrame)
        → length fs ≤ frame_max
        → Holds {A = Bool × VmThread}
            (λ r. IsFramed r.1)
            (elim fs [
              | [] ↦ fault
              | last ∷ [] ↦ ok (
                true,
                record t { frames = record last { code = opcode op_eof ∷ []; pc = 0 } ∷ [] },
              )
              | _ ∷ frame ∷ frames ↦ ok (false, record t { frames = frame ∷ frames })
            ])
    from [] k = faults
    from (last ∷ []) k = returns k
    from (_ ∷ frame ∷ frames) k = returns (omega (arith, k))

pub profile-IsFramed :
    (caller : FunctionObject) (t : VmThread)
    → IsFramed t
    → Holds IsFramed (profile_if_not_profiling caller t)
unfolding profile_returned_value
profile-IsFramed caller t h = from caller.state
  where
    from :
        (s : FunctionState)
        → Holds IsFramed (elim s [
          | func_state_not_profiling ↦ if caller.profile_written then ok t else fault
          | _ ↦ ok t
        ])
    from func_state_not_profiling = Holds-if caller.profile_written (returns h) faults
    from _ = returns h

pub return_function-IsFramed : (t : VmThread) → IsFramed t → Holds IsFramed (return_function t)
unfolding return_function
return_function-IsFramed t h = current-Holds t _ (λ returned frames p.
    after t (pop_stack_vm t) _ h (pop-Reads t) (λ v t h. Holds-bind (restore-IsFramed t h) (λ r h.
      Holds-bind (Holds-if r.0 (returns h) (Holds-access (place returned 0) _ (λ esp. returns h)))
        (λ t h. current-Holds t _ (λ caller_frame frames p.
          Holds-access (function_at t caller_frame.function) _ (λ caller.
            Holds-bind (profile-IsFramed caller t h)
              (λ t h. Moves-IsFramed h (push-Moves v t))))))))
