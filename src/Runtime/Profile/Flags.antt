-- ===== src/Runtime/Profile/Flags.antt =====
-- The decision of `get_type_by_type_profile_data` on flags, and checks of all lists of flags.
use lox_vm.Prelude.{
  ℕ, zero, suc, ◌^◌, ◌<◌, ◌≤◌, ◌≡◌, refl, List, [], ◌∷◌, Bool, true, false, not, ◌&&◌, ◌==◌, ltb,
  if◌then◌else◌, arith, length,
}
use lox_vm.Jit.Types.{
  ProfileDataType, profile_i64, profile_f64, profile_string, profile_boolean, profile_nil,
  profile_array, profile_struct_instance, profile_any,
}
use lox_vm.Runtime.Profile.{
  TypeProfileData, increment, is_positive, is_not_negative, get_type_by_type_profile_data,
}

-- The same decision on whether each counter is positive.
abbrev pub by_flags : Bool → Bool → Bool → Bool → Bool → Bool → Bool → Bool → ProfileDataType
by_flags s a y f b n g i =
    if s && not a && not y && not f && not b && not n && not g && not i
    then profile_struct_instance
    else if not s && a && not y && not f && not b && not n && not g && not i
    then profile_array
    else if not s && not a && y && not f && not b && not n && not g && not i
    then profile_any
    else if not s && not a && not y && f && not b && not n && not g && true
    then profile_f64
    else if not s && not a && not y && not f && b && not n && not g && not i
    then profile_boolean
    else if not s && not a && not y && not f && not b && n && not g && not i
    then profile_nil
    else if not s && not a && not y && not f && not b && not n && g && not i
    then profile_string
    else if not s && not a && not y && not f && not b && not n && not g && i
    then profile_i64
    else profile_any

zero_test : (x : ℕ) → (x == 0) ≡ not (ltb 0 x)
zero_test x = ground arith

positive_test : (x n : ℕ) → x ≤ n → n < 2 ^ 31 → is_positive x ≡ ltb 0 x
unfolding is_positive
positive_test x n h k = ground arith

no_negative : (x n : ℕ) → x ≤ n → n < 2 ^ 31 → is_not_negative x ≡ true
unfolding is_not_negative
no_negative x n h k = ground arith

pub positive : (x n : ℕ) → x ≤ n → n < 2 ^ 31 → ltb 0 (increment x) ≡ true
unfolding increment
positive x n h k = ground arith

pub increment-next : (x n : ℕ) → x ≤ n → n < 2 ^ 31 → increment x ≤ suc n
unfolding increment
increment-next x n h k = omega arith

-- No counter is above a bound.
pub record IsBelow (n : ℕ) (p : TypeProfileData) : Type 0 where
  pub i64 : p.i64 ≤ n
  pub f64 : p.f64 ≤ n
  pub boolean : p.boolean ≤ n
  pub nil : p.nil ≤ n
  pub string : p.string ≤ n
  pub array : p.array ≤ n
  pub struct_instance : p.struct_instance ≤ n
  pub any : p.any ≤ n

pub get_type-flags :
    (n : ℕ) (p : TypeProfileData)
    → n < 2 ^ 31
    → IsBelow n p
    → get_type_by_type_profile_data p
      ≡ by_flags
          (ltb 0 p.struct_instance)
          (ltb 0 p.array)
          (ltb 0 p.any)
          (ltb 0 p.f64)
          (ltb 0 p.boolean)
          (ltb 0 p.nil)
          (ltb 0 p.string)
          (ltb 0 p.i64)
unfolding get_type_by_type_profile_data
get_type-flags n p small h =
    rw
      (
        positive_test p.struct_instance n h.struct_instance small,
        positive_test p.array n h.array small,
        positive_test p.any n h.any small,
        positive_test p.f64 n h.f64 small,
        positive_test p.boolean n h.boolean small,
        positive_test p.nil n h.nil small,
        positive_test p.string n h.string small,
        positive_test p.i64 n h.i64 small,
        no_negative p.i64 n h.i64 small,
      )
      (rw
        (
          zero_test p.struct_instance,
          zero_test p.array,
          zero_test p.any,
          zero_test p.f64,
          zero_test p.boolean,
          zero_test p.nil,
          zero_test p.string,
          zero_test p.i64,
        )
        refl)

-- a test of all lists of so many flags
unfoldable pub all : ℕ → (List Bool → Bool) → Bool
all zero test = test []
all (suc k) test = all k (λ bs. test (true ∷ bs)) && all k (λ bs. test (false ∷ bs))

pub all_sound :
    (k : ℕ) (test : List Bool → Bool)
    → all k test ≡ true
    → (bs : List Bool) → length bs ≡ k
    → test bs ≡ true
unfolding all
all_sound zero test h [] e = h
all_sound zero test h (b ∷ bs) e = absurd (omega (arith, e))
all_sound (suc k) test h [] e = absurd (omega (arith, e))
all_sound (suc k) test h (true ∷ bs) e =
    all_sound k (λ bs. test (true ∷ bs)) (ground arith) bs (omega (arith, e))
all_sound (suc k) test h (false ∷ bs) e =
    all_sound k (λ bs. test (false ∷ bs)) (ground arith) bs (omega (arith, e))
