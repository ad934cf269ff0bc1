-- ===== src/Runtime/Vm/Step/Advance.antt =====
-- How far a handler moves the place in the code of the current frame, the other frames and the size of the
-- stack unchanged.
use lox_vm.Prelude.{
  ℕ, zero, suc, ◌+◌, ◌≡◌, refl, sym, ap, ◌∙◌, Bool, true, false, List, [], ◌∷◌, Option, none, some,
  get_elem?, length, length-set, arith, ltb, if◌then◌else◌,
}
use lox_vm.Shared.Values.{is_number, is_bool, is_object, as_object, ObjectType}
use lox_vm.Runtime.Vm.Outcome.{
  Outcome, ok, panic, fault, unfinished, ◌>>=◌, access, Holds, returns, panics, faults, goes_on,
  Holds-bind,
}
use lox_vm.Runtime.Vm.Machine.{find_key, Object, CallFrame, VmThread}
use lox_vm.Runtime.Vm.Stack.{
  push_stack_vm, pop_stack_vm, pop_at, pop_and_check_number, check_boolean, pop_and_check_object,
  object_type, same_type,
}
use lox_vm.Runtime.Vm.Frames.{
  get_current_frame, read_bytecode, read_u16, read_constant, function_at, set_current_frame,
}

abbrev pub advance : ℕ → List CallFrame → List CallFrame
advance n [] = []
advance n (frame ∷ frames) = record frame { pc = frame.pc + n } ∷ frames

pub record Advances (n : ℕ) (thread thread' : VmThread) : Type 0 where
  pub frames_eq : thread'.frames ≡ advance n thread.frames
  pub length_eq : length thread'.stack ≡ length thread.stack

advance-advance :
    (m n : ℕ) (frames : List CallFrame) → advance n (advance m frames) ≡ advance (m + n) frames
advance-advance m n [] = refl
advance-advance m n (frame ∷ frames) = ap (λ p. record frame { pc = p } ∷ frames) (omega arith)

advance-zero : (frames : List CallFrame) → advance 0 frames ≡ frames
advance-zero [] = refl
advance-zero (frame ∷ frames) = ap (λ p. record frame { pc = p } ∷ frames) (omega arith)

pub Advances-trans :
    {m n : ℕ} {s t u : VmThread} → Advances m s t → Advances n t u → Advances (m + n) s u
Advances-trans {m = m} {n = n} {s = s} p q = record {
  frames_eq = q.frames_eq ∙ ap (advance n) p.frames_eq ∙ advance-advance m n s.frames;
  length_eq = q.length_eq ∙ p.length_eq;
}

-- The frames are untouched.
pub stays :
    {t u : VmThread} → u.frames ≡ t.frames → length u.stack ≡ length t.stack → Advances 0 t u
stays {t = t} p q = record { frames_eq = p ∙ sym (advance-zero t.frames); length_eq = q }

abbrev pub Moves : ℕ → VmThread → Outcome VmThread → Type 0
Moves n t r = Holds (Advances n t) r

abbrev pub Reads {ℓ} : {A : Type ℓ} → ℕ → VmThread → Outcome (A × VmThread) → Type ℓ
Reads n t r = Holds (λ x. Advances n t x.1) r

Reads-after {ℓ} :
    {A : Type ℓ} {m n : ℕ} {t u : VmThread} {r : Outcome (A × VmThread)}
    → Reads n u r
    → Advances m t u
    → Reads (m + n) t r
Reads-after (returns q) p = returns (Advances-trans p q)
Reads-after panics p = panics
Reads-after faults p = faults
Reads-after goes_on p = goes_on

Moves-after :
    {m n : ℕ} {t u : VmThread} {r : Outcome VmThread}
    → Moves n u r
    → Advances m t u
    → Moves (m + n) t r
Moves-after (returns q) p = returns (Advances-trans p q)
Moves-after panics p = panics
Moves-after faults p = faults
Moves-after goes_on p = goes_on

module _ {ℓ} {A : Type ℓ} where
  pub Reads-Moves :
      {m n : ℕ} {t : VmThread} {r : Outcome (A × VmThread)} (f : A × VmThread → Outcome VmThread)
      → Reads m t r
      → ((a : A) (u : VmThread) → Moves n u (f (a, u)))
      → Moves (m + n) t (r >>= f)
  Reads-Moves f h k = Holds-bind h (λ x p. Moves-after (k x.0 x.1) p)

  pub Reads-Reads {κ} :
      {B : Type κ} {m n : ℕ} {t : VmThread} {r : Outcome (A × VmThread)}
      (f : A × VmThread → Outcome (B × VmThread))
      → Reads m t r
      → ((a : A) (u : VmThread) → Reads n u (f (a, u)))
      → Reads (m + n) t (r >>= f)
  Reads-Reads f h k = Holds-bind h (λ x p. Reads-after (k x.0 x.1) p)

  -- A value that is looked up, or a fault.
  pub Holds-access {κ} :
      {B : Type κ} {P : B → Type 0} (o : Outcome A) (f : A → Outcome B)
      → ((a : A) → Holds P (f a))
      → Holds P (o >>= f)
  Holds-access (ok a) f k = k a
  Holds-access (panic p) f k = panics
  Holds-access fault f k = faults
  Holds-access unfinished f k = goes_on

pub Holds-if {ℓ} :
    {A : Type ℓ} {P : A → Type 0} (b : Bool) {x y : Outcome A}
    → Holds P x
    → Holds P y
    → Holds P (if b then x else y)
Holds-if true p q = p
Holds-if false p q = q

pub Holds-option {ℓ κ} :
    {A : Type ℓ} {B : Type κ} {P : B → Type 0} (o : Option A) {x : Outcome B} {f : A → Outcome B}
    → Holds P x
    → ((a : A) → Holds P (f a))
    → Holds P (elim o [ none ↦ x | some a ↦ f a ])
Holds-option none p q = p
Holds-option (some a) p q = q a

pub push-Moves : (v : ℕ) (t : VmThread) → Moves 0 t (push_stack_vm v t)
unfolding push_stack_vm
push-Moves v t =
    Holds-if (ltb t.esp (length t.stack)) (returns (stays refl (length-set t.stack t.esp v))) faults

pub pop-Reads : (t : VmThread) → Reads 0 t (pop_stack_vm t)
unfolding pop_stack_vm pop_at
pop-Reads t = from t.esp
  where
    from : (e : ℕ) → Reads 0 t (pop_at e t)
    from zero = faults
    from (suc e) = Holds-access (access (get_elem? t.stack e)) _ (λ v. returns (stays refl refl))

pub number-Reads : (t : VmThread) → Reads 0 t (pop_and_check_number t)
unfolding pop_and_check_number
number-Reads t =
    Reads-Reads _ (pop-Reads t) (λ v u. Holds-if (is_number v) (returns (stays refl refl)) panics)

pub boolean-Reads : (t : VmThread) → Reads 0 t (check_boolean t)
unfolding check_boolean
boolean-Reads t =
    Reads-Reads _ (pop-Reads t) (λ v u. Holds-if (is_bool v) (returns (stays refl refl)) panics)

pub object-Moves :
    {n : ℕ} (expected : ObjectType) (t : VmThread) (f : ℕ × Object × VmThread → Outcome VmThread)
    → ((address : ℕ) (object : Object) (u : VmThread) → Moves n u (f (address, object, u)))
    → Moves (0 + n) t (pop_and_check_object expected t >>= f)
unfolding pop_and_check_object
object-Moves expected t f k = Holds-bind popped (λ x p. Moves-after (k x.0 x.1 x.2) p)
  where
    popped : Holds (λ x. Advances 0 t x.2) (pop_and_check_object expected t)
    popped = Holds-bind (pop-Reads t) (λ x p.
        Holds-if (is_object x.0)
          (Holds-access (access (find_key x.1.heap (as_object x.0))) _
            (λ object. Holds-if (same_type (object_type object) expected) (returns p) panics))
          panics)

pub move-Advances :
    (n q : ℕ) (t : VmThread) (frame : CallFrame) (frames : List CallFrame)
    → t.frames ≡ frame ∷ frames
    → q ≡ frame.pc + n
    → Advances n t (set_current_frame t (record frame { pc = q }))
move-Advances n q t frame frames p e = record { frames_eq = rw (p, e) refl; length_eq = rw p refl }

pub current-Holds {ℓ} :
    {A : Type ℓ} {P : A → Type 0} (t : VmThread) (k : CallFrame → Outcome A)
    → ((frame : CallFrame) (frames : List CallFrame)
        → t.frames ≡ frame ∷ frames
        → Holds P (k frame))
    → Holds P (get_current_frame t >>= k)
unfolding get_current_frame
current-Holds {P = P} t k h = from t.frames refl
  where
    from :
        (fs : List CallFrame)
        → t.frames ≡ fs
        → Holds P (elim fs [ [] ↦ fault | frame ∷ frames ↦ ok frame ] >>= k)
    from [] p = faults
    from (frame ∷ frames) p = h frame frames p

pub bytecode-Reads : (t : VmThread) → Reads 1 t (read_bytecode t)
unfolding read_bytecode
bytecode-Reads t = current-Holds t _ (λ frame frames p.
    Holds-access (access (get_elem? frame.code frame.pc)) _
      (λ byte. returns (move-Advances 1 _ t frame frames p (omega arith))))

pub u16-Reads : (t : VmThread) → Reads 2 t (read_u16 t)
unfolding read_u16
u16-Reads t = current-Holds t _ (λ frame frames p.
    Holds-access (access (get_elem? frame.code frame.pc)) _ (λ low.
      Holds-access (access (get_elem? frame.code (suc frame.pc))) _
        (λ high. returns (move-Advances 2 _ t frame frames p refl))))

pub constant-Reads : (t : VmThread) → Reads 1 t (read_constant t)
unfolding read_constant
constant-Reads t = current-Holds t _ (λ frame frames p. Reads-Reads _ (bytecode-Reads t) (λ index u.
    Holds-access (function_at u frame.function) _ (λ f.
      Holds-access (access (get_elem? f.constants index)) _ (λ v. returns (stays refl refl)))))
