-- ===== src/Jit/Types/Finite.antt =====
-- Statements about all tags, checked by evaluation.
use lox_vm.Prelude.{ℕ, [], ◌∷◌, Bool, true, ◌≡◌, refl, ap, sym, ◌∙◌, ◌<◌, arith, get_or, ==_iff}
use lox_vm.Prelude.Bits.{below, below_sound}
use lox_vm.Jit.Types.{
  LoxIrType, tag, same_tag, f64, unknown, native_i64, native_string, native_boolean, native_nil,
  native_array, native_struct_instance, lox_any, lox_i64, lox_string, lox_boolean, lox_nil,
  lox_array, lox_struct_instance,
}

-- the tag of a number
abbrev of_tag : ℕ → LoxIrType
of_tag n =
    get_or
      (f64 ∷ unknown ∷ native_i64 ∷ native_string ∷ native_boolean ∷ native_nil ∷ native_array
        ∷ native_struct_instance ∷ lox_any ∷ lox_i64 ∷ lox_string ∷ lox_boolean ∷ lox_nil
        ∷ lox_array ∷ lox_struct_instance ∷ [])
      n unknown

of_tag-tag : (t : LoxIrType) → of_tag (tag t) ≡ t
unfolding tag
of_tag-tag f64 = refl
of_tag-tag unknown = refl
of_tag-tag native_i64 = refl
of_tag-tag native_string = refl
of_tag-tag native_boolean = refl
of_tag-tag native_nil = refl
of_tag-tag native_array = refl
of_tag-tag native_struct_instance = refl
of_tag-tag lox_any = refl
of_tag-tag lox_i64 = refl
of_tag-tag lox_string = refl
of_tag-tag lox_boolean = refl
of_tag-tag lox_nil = refl
of_tag-tag lox_array = refl
of_tag-tag lox_struct_instance = refl

tag-lt : (t : LoxIrType) → tag t < 15
unfolding tag
tag-lt f64 = omega arith
tag-lt unknown = omega arith
tag-lt native_i64 = omega arith
tag-lt native_string = omega arith
tag-lt native_boolean = omega arith
tag-lt native_nil = omega arith
tag-lt native_array = omega arith
tag-lt native_struct_instance = omega arith
tag-lt lox_any = omega arith
tag-lt lox_i64 = omega arith
tag-lt lox_string = omega arith
tag-lt lox_boolean = omega arith
tag-lt lox_nil = omega arith
tag-lt lox_array = omega arith
tag-lt lox_struct_instance = omega arith

-- Whether a test passes on every tag.
unfoldable pub on_all : (LoxIrType → Bool) → Bool
unfolding below
on_all test = below 15 (λ i. test (of_tag i))

pub on_all_sound : (test : LoxIrType → Bool) → on_all test ≡ true → (t : LoxIrType) → test t ≡ true
unfolding on_all
on_all_sound test h t =
    ap test (sym (of_tag-tag t)) ∙ below_sound 15 (λ i. test (of_tag i)) (tag t) h (tag-lt t)

same_tag_sound : (a b : LoxIrType) → same_tag a b ≡ true → a ≡ b
unfolding same_tag
same_tag_sound a b h = sym (of_tag-tag a) ∙ ap of_tag ((==_iff (tag a) (tag b)).0 h) ∙ of_tag-tag b

-- Two functions of two tags agree if they do on every pair.
pub same_on_all :
    (f g : LoxIrType → LoxIrType → LoxIrType)
    → on_all (λ a. on_all (λ b. same_tag (f a b) (g a b))) ≡ true
    → (a b : LoxIrType) → f a b ≡ g a b
same_on_all f g h a b = same_tag_sound (f a b) (g a b) (
    on_all_sound (λ b. same_tag (f a b) (g a b))
      (on_all_sound (λ a. on_all (λ b. same_tag (f a b) (g a b))) h a) b)
