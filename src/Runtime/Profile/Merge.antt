-- ===== src/Runtime/Profile/Merge.antt =====
-- The type that a profile ends with, as the merge of the types that were met.
use lox_vm.Prelude.{
  ℕ, suc, ◌+◌, ◌^◌, ◌<◌, ◌≡◌, length, refl, ap, sym, ◌∙◌, List, [], ◌∷◌, Bool, true, false, not,
  ◌&&◌, ◌||◌, ◌==◌, ltb, if◌then◌else◌, arith, Bool-cases, inl, inr, get_or, ==_iff,
}
use lox_vm.Jit.Types.{
  ProfileDataType, profile_i64, profile_f64, profile_string, profile_boolean, profile_nil,
  profile_array, profile_struct_instance, profile_any,
}
use lox_vm.Runtime.Profile.{
  TypeProfileData, increment, init_type_profile_data, profile_type, profile_definition,
  get_type_by_type_profile_data,
}
use lox_vm.Runtime.Profile.Bounds.{profile_type-IsBelow}
use lox_vm.Runtime.Profile.Flags.{by_flags, get_type-flags, positive, IsBelow, all, all_sound}

-- What two types have in common: an integer and a float are a float, any others that differ are anything.
abbrev pub merge : ProfileDataType → ProfileDataType → ProfileDataType
merge profile_i64 profile_i64 = profile_i64
merge profile_i64 profile_f64 = profile_f64
merge profile_f64 profile_i64 = profile_f64
merge profile_f64 profile_f64 = profile_f64
merge profile_string profile_string = profile_string
merge profile_boolean profile_boolean = profile_boolean
merge profile_nil profile_nil = profile_nil
merge profile_array profile_array = profile_array
merge profile_struct_instance profile_struct_instance = profile_struct_instance
merge _ _ = profile_any

-- whether anything was met
abbrev pub is_seen : TypeProfileData → Bool
is_seen p =
    ltb 0 p.i64
    || (ltb 0 p.f64
        || (ltb 0 p.boolean
            || (ltb 0 p.nil
                || (ltb 0 p.string
                    || (ltb 0 p.array || (ltb 0 p.struct_instance || ltb 0 p.any))))))

abbrev by_flags_of : TypeProfileData → ProfileDataType
by_flags_of p =
    by_flags (ltb 0 p.struct_instance) (ltb 0 p.array) (ltb 0 p.any) (ltb 0 p.f64) (ltb 0 p.boolean)
      (ltb 0 p.nil) (ltb 0 p.string) (ltb 0 p.i64)

-- The counters do not change where the definition of a struct is recorded.
definition-flags :
    (p : TypeProfileData) (d : ℕ) → by_flags_of (profile_definition p d) ≡ by_flags_of p
unfolding profile_definition
definition-flags p d =
    elim (Bool-cases (not p.invalid_struct_definition && p.struct_definition == 0)) [
      | inl e ↦ simp e refl
      | inr e ↦
          elim (Bool-cases (not p.invalid_struct_definition && not (p.struct_definition == d))) [
            | inl k ↦ simp (e, k) refl
            | inr k ↦ simp (e, k) refl
          ]
    ]

-- One more type, where some were met before, is merged with these.
merged : TypeProfileData → ProfileDataType → ProfileDataType
merged p t = if is_seen p then merge (get_type_by_type_profile_data p) t else t

abbrev type_number : ProfileDataType → ℕ
type_number profile_i64 = 0
type_number profile_f64 = 1
type_number profile_string = 2
type_number profile_boolean = 3
type_number profile_nil = 4
type_number profile_array = 5
type_number profile_any = 6
type_number profile_struct_instance = 7

abbrev of_type_number : ℕ → ProfileDataType
of_type_number k =
    get_or
      (profile_i64 ∷ profile_f64 ∷ profile_string ∷ profile_boolean ∷ profile_nil ∷ profile_array
        ∷ profile_any ∷ profile_struct_instance ∷ [])
      k profile_any

of_type_number-type_number : (t : ProfileDataType) → of_type_number (type_number t) ≡ t
of_type_number-type_number profile_i64 = refl
of_type_number-type_number profile_f64 = refl
of_type_number-type_number profile_string = refl
of_type_number-type_number profile_boolean = refl
of_type_number-type_number profile_nil = refl
of_type_number-type_number profile_array = refl
of_type_number-type_number profile_any = refl
of_type_number-type_number profile_struct_instance = refl

-- what is left of the profile when a type is met, on flags
abbrev left : ProfileDataType → List Bool → ProfileDataType
left profile_i64 bs =
    by_flags (get_or bs 0 false) (get_or bs 1 false) (get_or bs 2 false) (get_or bs 3 false)
      (get_or bs 4 false) (get_or bs 5 false) (get_or bs 6 false) true
left profile_f64 bs =
    by_flags (get_or bs 0 false) (get_or bs 1 false) (get_or bs 2 false) true (get_or bs 4 false)
      (get_or bs 5 false) (get_or bs 6 false) (get_or bs 7 false)
left profile_string bs =
    by_flags (get_or bs 0 false) (get_or bs 1 false) (get_or bs 2 false) (get_or bs 3 false)
      (get_or bs 4 false) (get_or bs 5 false) true (get_or bs 7 false)
left profile_boolean bs =
    by_flags (get_or bs 0 false) (get_or bs 1 false) (get_or bs 2 false) (get_or bs 3 false) true
      (get_or bs 5 false) (get_or bs 6 false) (get_or bs 7 false)
left profile_nil bs =
    by_flags (get_or bs 0 false) (get_or bs 1 false) (get_or bs 2 false) (get_or bs 3 false)
      (get_or bs 4 false) true (get_or bs 6 false) (get_or bs 7 false)
left profile_array bs =
    by_flags (get_or bs 0 false) true (get_or bs 2 false) (get_or bs 3 false) (get_or bs 4 false)
      (get_or bs 5 false) (get_or bs 6 false) (get_or bs 7 false)
left profile_any bs =
    by_flags (get_or bs 0 false) (get_or bs 1 false) true (get_or bs 3 false) (get_or bs 4 false)
      (get_or bs 5 false) (get_or bs 6 false) (get_or bs 7 false)
left profile_struct_instance bs =
    by_flags true (get_or bs 1 false) (get_or bs 2 false) (get_or bs 3 false) (get_or bs 4 false)
      (get_or bs 5 false) (get_or bs 6 false) (get_or bs 7 false)

abbrev right : ProfileDataType → List Bool → ProfileDataType
right t bs =
    if get_or bs 7 false
      || (get_or bs 3 false
          || (get_or bs 4 false
              || (get_or bs 5 false
                  || (get_or bs 6 false
                      || (get_or bs 1 false || (get_or bs 0 false || (get_or bs 2 false)))))))
    then merge
        (by_flags (get_or bs 0 false) (get_or bs 1 false) (get_or bs 2 false) (get_or bs 3 false)
          (get_or bs 4 false) (get_or bs 5 false) (get_or bs 6 false) (get_or bs 7 false))
        t
    else t

flags_agree :
    (t : ProfileDataType) → all 8 (λ bs. type_number (left t bs) == type_number (right t bs)) ≡ true
unfolding all
flags_agree profile_i64 = refl
flags_agree profile_f64 = refl
flags_agree profile_string = refl
flags_agree profile_boolean = refl
flags_agree profile_nil = refl
flags_agree profile_array = refl
flags_agree profile_any = refl
flags_agree profile_struct_instance = refl

flags : TypeProfileData → List Bool
flags p =
    ltb 0 p.struct_instance
    ∷ ltb 0 p.array
    ∷ ltb 0 p.any
    ∷ ltb 0 p.f64
    ∷ ltb 0 p.boolean
    ∷ ltb 0 p.nil
    ∷ ltb 0 p.string
    ∷ ltb 0 p.i64
    ∷ []

left-right : (p : TypeProfileData) (t : ProfileDataType) → left t (flags p) ≡ right t (flags p)
unfolding flags
left-right p t =
    sym (of_type_number-type_number (left t (flags p)))
    ∙ ap of_type_number (
        (==_iff _ _).0 (
          all_sound 8 (λ bs. type_number (left t bs) == type_number (right t bs)) (flags_agree t)
            (flags p) refl))
    ∙ of_type_number-type_number (right t (flags p))

module _ (n : ℕ) (p : TypeProfileData) (small : suc n < 2 ^ 31) (h : IsBelow n p) where
  merged-flags : (t : ProfileDataType) → left t (flags p) ≡ merged p t
  unfolding flags merged
  merged-flags t = left-right p t ∙ rw (get_type-flags n p (omega arith) h) refl

  counted :
      (t : ProfileDataType) (d : ℕ)
      → get_type_by_type_profile_data (profile_type p t d) ≡ by_flags_of (profile_type p t d)
  counted t d =
      get_type-flags (suc n) (profile_type p t d) small
        (profile_type-IsBelow n p t d (omega arith) h)

  get_type-profile_type :
      (t : ProfileDataType) (d : ℕ)
      → get_type_by_type_profile_data (profile_type p t d) ≡ merged p t
  unfolding profile_type flags
  get_type-profile_type profile_i64 d =
      counted profile_i64 d ∙ rw (positive p.i64 n h.i64 (omega arith)) (merged-flags profile_i64)
  get_type-profile_type profile_f64 d =
      counted profile_f64 d ∙ rw (positive p.f64 n h.f64 (omega arith)) (merged-flags profile_f64)
  get_type-profile_type profile_string d =
      counted profile_string d
      ∙ rw (positive p.string n h.string (omega arith)) (merged-flags profile_string)
  get_type-profile_type profile_boolean d =
      counted profile_boolean d
      ∙ rw (positive p.boolean n h.boolean (omega arith)) (merged-flags profile_boolean)
  get_type-profile_type profile_nil d =
      counted profile_nil d ∙ rw (positive p.nil n h.nil (omega arith)) (merged-flags profile_nil)
  get_type-profile_type profile_array d =
      counted profile_array d
      ∙ rw (positive p.array n h.array (omega arith)) (merged-flags profile_array)
  get_type-profile_type profile_any d =
      counted profile_any d ∙ rw (positive p.any n h.any (omega arith)) (merged-flags profile_any)
  get_type-profile_type profile_struct_instance d =
      counted profile_struct_instance d
      ∙ definition-flags (record p { struct_instance = increment p.struct_instance }) d
      ∙ rw (positive p.struct_instance n h.struct_instance (omega arith))
          (merged-flags profile_struct_instance)

definition-is_seen : (p : TypeProfileData) (d : ℕ) → is_seen (profile_definition p d) ≡ is_seen p
unfolding profile_definition
definition-is_seen p d =
    elim (Bool-cases (not p.invalid_struct_definition && p.struct_definition == 0)) [
      | inl e ↦ simp e refl
      | inr e ↦
          elim (Bool-cases (not p.invalid_struct_definition && not (p.struct_definition == d))) [
            | inl k ↦ simp (e, k) refl
            | inr k ↦ simp (e, k) refl
          ]
    ]

seen :
    (n : ℕ) (p : TypeProfileData) (t : ProfileDataType) (d : ℕ)
    → n < 2 ^ 31
    → IsBelow n p
    → is_seen (profile_type p t d) ≡ true
unfolding profile_type
seen n p profile_i64 d small h = ground (arith, positive p.i64 n h.i64 small)
seen n p profile_f64 d small h = ground (arith, positive p.f64 n h.f64 small)
seen n p profile_string d small h = ground (arith, positive p.string n h.string small)
seen n p profile_boolean d small h = ground (arith, positive p.boolean n h.boolean small)
seen n p profile_nil d small h = ground (arith, positive p.nil n h.nil small)
seen n p profile_array d small h = ground (arith, positive p.array n h.array small)
seen n p profile_any d small h = ground (arith, positive p.any n h.any small)
seen n p profile_struct_instance d small h =
    definition-is_seen (record p { struct_instance = increment p.struct_instance }) d
    ∙ ground (arith, positive p.struct_instance n h.struct_instance small)

-- The types of a run of values, each with the definition of a struct.
abbrev pub profile_all : TypeProfileData → List (ProfileDataType × ℕ) → TypeProfileData
profile_all p [] = p
profile_all p (v ∷ vs) = profile_all (profile_type p v.0 v.1) vs

abbrev pub merge_all : ProfileDataType → List (ProfileDataType × ℕ) → ProfileDataType
merge_all t [] = t
merge_all t (v ∷ vs) = merge_all (merge t v.0) vs

profile-merge :
    (vs : List (ProfileDataType × ℕ)) (n : ℕ) (p : TypeProfileData)
    → n + length vs < 2 ^ 31
    → IsBelow n p
    → is_seen p ≡ true
    → get_type_by_type_profile_data (profile_all p vs)
      ≡ merge_all (get_type_by_type_profile_data p) vs
unfolding merged
profile-merge [] n p small h s = refl
profile-merge (v ∷ vs) n p small h s =
    profile-merge vs (suc n) (profile_type p v.0 v.1) (omega arith)
      (profile_type-IsBelow n p v.0 v.1 (omega arith) h) (seen n p v.0 v.1 (omega arith) h)
    ∙ ap (λ t. merge_all t vs)
        (get_type-profile_type n p (omega arith) h v.0 v.1
          ∙ ap (λ b. if b then merge (get_type_by_type_profile_data p) v.0 else v.0) s)

-- After values of the classes `t` and `vs`, fewer than 2 ^ 31 in all, in this order and each with the
-- definition of a struct, the type of a new profile is that of `t` merged with each of the others: `merge`
-- keeps a type that is met again, makes a float of an integer and a float, and any of all else.
pub get_type-merge :
    (t : ProfileDataType) (d : ℕ) (vs : List (ProfileDataType × ℕ))
    → suc (length vs) < 2 ^ 31
    → get_type_by_type_profile_data (profile_all init_type_profile_data ((t, d) ∷ vs))
      ≡ merge_all t vs
unfolding init_type_profile_data merged
get_type-merge t d vs small =
    profile-merge vs 1 (profile_type init_type_profile_data t d) (omega arith)
      (profile_type-IsBelow 0 init_type_profile_data t d (omega arith) new)
      (seen 0 init_type_profile_data t d (omega arith) new)
    ∙ ap (λ t. merge_all t vs)
        (get_type-profile_type 0 init_type_profile_data (omega arith) new t d)
  where
    new : IsBelow 0 init_type_profile_data
    new = record {
      i64 = omega arith;
      f64 = omega arith;
      boolean = omega arith;
      nil = omega arith;
      string = omega arith;
      array = omega arith;
      struct_instance = omega arith;
      any = omega arith;
    }
