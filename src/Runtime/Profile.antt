-- ===== src/Runtime/Profile.antt =====
-- The profile of a type in src/runtime/profiler: `type_profile_data` and what profile_data.c makes of it.
-- The class of a value, which `lox_value_to_profile_type` finds, is an argument of `profile_type`, with the
-- definition of a struct instance, a number that is not 0. A counter is an `int`, kept as its pattern of 32
-- bits: an addition wraps around, and from 2 ^ 31 on the pattern is that of a negative number.
pub mod Flags
pub mod Bounds
pub mod Merge
use lox_vm.Prelude.{
  ℕ, ◌+◌, ◌%◌, ◌^◌, Bool, true, false, not, ◌&&◌, ◌||◌, ◌==◌, ltb, if◌then◌else◌, String,
}
use lox_vm.Jit.Types.{
  ProfileDataType, profile_i64, profile_f64, profile_string, profile_boolean, profile_nil,
  profile_array, profile_struct_instance, profile_any,
}

pub record TypeProfileData : Type 0 where
  pub i64 : ℕ
  pub f64 : ℕ
  pub boolean : ℕ
  pub nil : ℕ
  pub string : ℕ
  pub array : ℕ
  pub struct_instance : ℕ
  pub any : ℕ
  pub struct_definition : ℕ
  pub invalid_struct_definition : Bool

unfoldable pub init_type_profile_data : TypeProfileData
init_type_profile_data = record {
  i64 = 0;
  f64 = 0;
  boolean = 0;
  nil = 0;
  string = 0;
  array = 0;
  struct_instance = 0;
  any = 0;
  struct_definition = 0;
  invalid_struct_definition = false;
}

-- `atomic_fetch_add` of 1
unfoldable pub increment : ℕ → ℕ
increment counter = (counter + 1) % 2 ^ 32

-- `> 0` and `>= 0` of an `int`
unfoldable pub is_positive : ℕ → Bool
is_positive counter = ltb 0 counter && ltb counter (2 ^ 31)

unfoldable pub is_not_negative : ℕ → Bool
is_not_negative counter = ltb counter (2 ^ 31)

-- the struct that is recorded
unfoldable pub profile_definition : TypeProfileData → ℕ → TypeProfileData
profile_definition p definition =
    if not p.invalid_struct_definition && p.struct_definition == 0
    then record p { struct_definition = definition }
    else if not p.invalid_struct_definition && not (p.struct_definition == definition)
    then record p { invalid_struct_definition = true }
    else p

unfoldable pub profile_type : TypeProfileData → ProfileDataType → ℕ → TypeProfileData
unfolding profile_definition increment
profile_type p profile_i64 definition = record p { i64 = increment p.i64 }
profile_type p profile_f64 definition = record p { f64 = increment p.f64 }
profile_type p profile_string definition = record p { string = increment p.string }
profile_type p profile_boolean definition = record p { boolean = increment p.boolean }
profile_type p profile_nil definition = record p { nil = increment p.nil }
profile_type p profile_struct_instance definition =
    profile_definition (record p { struct_instance = increment p.struct_instance }) definition
profile_type p profile_array definition = record p { array = increment p.array }
profile_type p profile_any definition = record p { any = increment p.any }

unfoldable pub get_type_by_type_profile_data : TypeProfileData → ProfileDataType
unfolding is_positive is_not_negative
get_type_by_type_profile_data p =
    if is_positive p.struct_instance
      && p.array == 0
      && p.any == 0
      && p.f64 == 0
      && p.boolean == 0
      && p.nil == 0
      && p.string == 0
      && p.i64 == 0
    then profile_struct_instance
    else if p.struct_instance == 0
        && is_positive p.array
        && p.any == 0
        && p.f64 == 0
        && p.boolean == 0
        && p.nil == 0
        && p.string == 0
        && p.i64 == 0
    then profile_array
    else if p.struct_instance == 0
        && p.array == 0
        && is_positive p.any
        && p.f64 == 0
        && p.boolean == 0
        && p.nil == 0
        && p.string == 0
        && p.i64 == 0
    then profile_any
    else if p.struct_instance == 0
        && p.array == 0
        && p.any == 0
        && is_positive p.f64
        && p.boolean == 0
        && p.nil == 0
        && p.string == 0
        && is_not_negative p.i64
    then profile_f64
    else if p.struct_instance == 0
        && p.array == 0
        && p.any == 0
        && p.f64 == 0
        && is_positive p.boolean
        && p.nil == 0
        && p.string == 0
        && p.i64 == 0
    then profile_boolean
    else if p.struct_instance == 0
        && p.array == 0
        && p.any == 0
        && p.f64 == 0
        && p.boolean == 0
        && is_positive p.nil
        && p.string == 0
        && p.i64 == 0
    then profile_nil
    else if p.struct_instance == 0
        && p.array == 0
        && p.any == 0
        && p.f64 == 0
        && p.boolean == 0
        && p.nil == 0
        && is_positive p.string
        && p.i64 == 0
    then profile_string
    else if p.struct_instance == 0
        && p.array == 0
        && p.any == 0
        && p.f64 == 0
        && p.boolean == 0
        && p.nil == 0
        && p.string == 0
        && is_positive p.i64
    then profile_i64
    else profile_any

unfoldable pub profile_data_type_to_string : ProfileDataType → String
profile_data_type_to_string profile_i64 = "i64"
profile_data_type_to_string profile_f64 = "f64"
profile_data_type_to_string profile_string = "string"
profile_data_type_to_string profile_boolean = "boolean"
profile_data_type_to_string profile_nil = "nil"
profile_data_type_to_string profile_struct_instance = "struct"
profile_data_type_to_string profile_array = "array"
profile_data_type_to_string profile_any = "any"
