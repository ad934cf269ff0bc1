-- ===== src/Examples/Profiles.antt =====
-- The profile of three values.
use lox_vm.Prelude.{◌≡◌, [], ◌∷◌, arith}
use lox_vm.Jit.Types.{profile_i64, profile_f64}
use lox_vm.Runtime.Profile.{init_type_profile_data, get_type_by_type_profile_data}
use lox_vm.Runtime.Profile.Merge.{profile_all, merge_all, get_type-merge}

get_type-merge_example :
    get_type_by_type_profile_data (
      profile_all init_type_profile_data
        ((profile_i64, 0) ∷ (profile_f64, 0) ∷ (profile_i64, 0) ∷ []))
    ≡ merge_all profile_i64 ((profile_f64, 0) ∷ (profile_i64, 0) ∷ [])
get_type-merge_example =
    get_type-merge profile_i64 0 ((profile_f64, 0) ∷ (profile_i64, 0) ∷ []) (omega arith)
