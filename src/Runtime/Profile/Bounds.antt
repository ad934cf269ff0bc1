-- ===== src/Runtime/Profile/Bounds.antt =====
-- The counters of a profile in src/runtime/profiler/profiler.c stay below the number of values met.
use lox_vm.Prelude.{ℕ, suc, ◌^◌, ◌<◌, ◌==◌, Bool, not, ◌&&◌, Bool-cases, inl, inr, arith}
use lox_vm.Jit.Types.{
  ProfileDataType, profile_i64, profile_f64, profile_string, profile_boolean, profile_nil,
  profile_array, profile_struct_instance, profile_any,
}
use lox_vm.Runtime.Profile.{TypeProfileData, increment, profile_type, profile_definition}
use lox_vm.Runtime.Profile.Flags.{increment-next, IsBelow}

definition-IsBelow :
    (n : ℕ) (p : TypeProfileData) (d : ℕ) → IsBelow n p → IsBelow n (profile_definition p d)
unfolding profile_definition
definition-IsBelow n p d h =
    elim (Bool-cases (not p.invalid_struct_definition && p.struct_definition == 0)) [
      | inl e ↦ rw e (same h)
      | inr e ↦
          elim (Bool-cases (not p.invalid_struct_definition && not (p.struct_definition == d))) [
            | inl k ↦ rw (e, k) (same h)
            | inr k ↦ rw (e, k) h
          ]
    ]
  where
    same :
        {q : ℕ} {b : Bool}
        → IsBelow n p
        → IsBelow n (record p { struct_definition = q; invalid_struct_definition = b })
    same h = record {
      i64 = h.i64;
      f64 = h.f64;
      boolean = h.boolean;
      nil = h.nil;
      string = h.string;
      array = h.array;
      struct_instance = h.struct_instance;
      any = h.any;
    }

-- One more value adds at most 1 to a counter.
pub profile_type-IsBelow :
    (n : ℕ) (p : TypeProfileData) (t : ProfileDataType) (d : ℕ)
    → n < 2 ^ 31
    → IsBelow n p
    → IsBelow (suc n) (profile_type p t d)
unfolding profile_type
profile_type-IsBelow n p profile_i64 d small h = record {
  i64 = increment-next p.i64 n h.i64 small;
  f64 = omega (arith, h.f64);
  boolean = omega (arith, h.boolean);
  nil = omega (arith, h.nil);
  string = omega (arith, h.string);
  array = omega (arith, h.array);
  struct_instance = omega (arith, h.struct_instance);
  any = omega (arith, h.any);
}
profile_type-IsBelow n p profile_f64 d small h = record {
  i64 = omega (arith, h.i64);
  f64 = increment-next p.f64 n h.f64 small;
  boolean = omega (arith, h.boolean);
  nil = omega (arith, h.nil);
  string = omega (arith, h.string);
  array = omega (arith, h.array);
  struct_instance = omega (arith, h.struct_instance);
  any = omega (arith, h.any);
}
profile_type-IsBelow n p profile_string d small h = record {
  i64 = omega (arith, h.i64);
  f64 = omega (arith, h.f64);
  boolean = omega (arith, h.boolean);
  nil = omega (arith, h.nil);
  string = increment-next p.string n h.string small;
  array = omega (arith, h.array);
  struct_instance = omega (arith, h.struct_instance);
  any = omega (arith, h.any);
}
profile_type-IsBelow n p profile_boolean d small h = record {
  i64 = omega (arith, h.i64);
  f64 = omega (arith, h.f64);
  boolean = increment-next p.boolean n h.boolean small;
  nil = omega (arith, h.nil);
  string = omega (arith, h.string);
  array = omega (arith, h.array);
  struct_instance = omega (arith, h.struct_instance);
  any = omega (arith, h.any);
}
profile_type-IsBelow n p profile_nil d small h = record {
  i64 = omega (arith, h.i64);
  f64 = omega (arith, h.f64);
  boolean = omega (arith, h.boolean);
  nil = increment-next p.nil n h.nil small;
  string = omega (arith, h.string);
  array = omega (arith, h.array);
  struct_instance = omega (arith, h.struct_instance);
  any = omega (arith, h.any);
}
profile_type-IsBelow n p profile_array d small h = record {
  i64 = omega (arith, h.i64);
  f64 = omega (arith, h.f64);
  boolean = omega (arith, h.boolean);
  nil = omega (arith, h.nil);
  string = omega (arith, h.string);
  array = increment-next p.array n h.array small;
  struct_instance = omega (arith, h.struct_instance);
  any = omega (arith, h.any);
}
profile_type-IsBelow n p profile_any d small h = record {
  i64 = omega (arith, h.i64);
  f64 = omega (arith, h.f64);
  boolean = omega (arith, h.boolean);
  nil = omega (arith, h.nil);
  string = omega (arith, h.string);
  array = omega (arith, h.array);
  struct_instance = omega (arith, h.struct_instance);
  any = increment-next p.any n h.any small;
}
profile_type-IsBelow n p profile_struct_instance d small h =
    definition-IsBelow (suc n) (record p { struct_instance = increment p.struct_instance }) d
      (record {
        i64 = omega (arith, h.i64);
        f64 = omega (arith, h.f64);
        boolean = omega (arith, h.boolean);
        nil = omega (arith, h.nil);
        string = omega (arith, h.string);
        array = omega (arith, h.array);
        struct_instance = increment-next p.struct_instance n h.struct_instance small;
        any = omega (arith, h.any);
      })
