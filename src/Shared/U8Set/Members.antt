-- ===== src/Shared/U8Set/Members.antt =====
-- The set of bytes that the four words of u8_set.c stand for.
use lox_vm.Prelude.{
  ℕ, zero, suc, ◌*◌, ◌/◌, ◌%◌, ◌^◌, ◌<◌, ◌≡◌, ◌≢◌, refl, ap, ◌∙◌, List, [], ◌∷◌, Bool, not, ◌&&◌,
  ◌||◌, ◌==◌, ==_iff, bit_and, bit_or, get_or, set, length, get_or-set_self, get_or-set_ne, arith,
  Bool-cases, inl, inr, if◌then◌else◌,
}
use lox_vm.Prelude.Bits.{below, below_sound}
use lox_vm.Prelude.Binary.{
  bit, bit-lt, bit-bit_and, bit-bit_or, bit_and-power, bit-power, bit-complement,
}
use lox_vm.Shared.U8Set.{
  U8Set, value_to_slot_index, complement, add_u8_set, contains_u8_set, words, union_u8_set,
  difference_u8_set, intersection_u8_set,
}

-- the word of a byte, and its digit
abbrev pub member : List ℕ → ℕ → Bool
member ws v = bit (v / 4) (get_or ws (v % 4) 0) == 1

pub slot_lem : (v : ℕ) → v < 256 → value_to_slot_index v ≡ v % 4
unfolding below
slot_lem v h = (==_iff _ _).0 (below_sound 256 (λ v. value_to_slot_index v == v % 4) v refl h)

pub power-pos : (j : ℕ) → 0 < 2 ^ j
power-pos zero = omega arith
power-pos (suc j) = omega (arith, power-pos j)

digit_test : (d p : ℕ) → d < 2 → 0 < p → not (d * p == 0) ≡ (d == 1)
digit_test zero p h k = ground arith
digit_test (suc zero) p h k = ground arith
digit_test (suc (suc d)) p h k = absurd (omega arith)

pub contains-member : (s : U8Set) (v : ℕ) → v < 256 → contains_u8_set s v ≡ member s.slot_bit_maps v
unfolding contains_u8_set
contains-member s v h =
    let w = get_or s.slot_bit_maps (v % 4) 0 in
    rw (slot_lem v h, bit_and-power (v / 4) w)
      (digit_test (bit (v / 4) w) (2 ^ (v / 4)) (bit-lt (v / 4) w) (power-pos (v / 4)))

pub record IsU8Set (s : U8Set) : Type 0 where
  pub four : length s.slot_bit_maps ≡ 4
  pub small : (i : ℕ) → get_or s.slot_bit_maps i 0 < 2 ^ 64

pub same_place : (u v : ℕ) → (u == v) ≡ (u % 4 == v % 4 && u / 4 == v / 4)
same_place u v = ground arith

-- A change of the word of `v` alone.
pub changed :
    (s : U8Set) (u v w : ℕ)
    → length s.slot_bit_maps ≡ 4
    → member (set s.slot_bit_maps (v % 4) w) u
      ≡ (if u % 4 == v % 4 then bit (u / 4) w == 1 else member s.slot_bit_maps u)
changed s u v w h = elim (Bool-cases (u % 4 == v % 4)) [
  | inl e ↦
      let same : u % 4 ≡ v % 4 = (==_iff _ _).0 e in
      rw (e, same, get_or-set_self s.slot_bit_maps (v % 4) w 0 (omega (arith, h))) refl
  | inr e ↦
      let other : v % 4 ≢ u % 4 = λ k. ground arith in
      rw (e, get_or-set_ne s.slot_bit_maps (v % 4) (u % 4) w 0 other) refl
]

pub member-add :
    (s : U8Set) (u v : ℕ)
    → length s.slot_bit_maps ≡ 4
    → v < 256
    → member (add_u8_set s v).slot_bit_maps u ≡ (u == v || member s.slot_bit_maps u)
unfolding add_u8_set
member-add s u v h q =
    let w = get_or s.slot_bit_maps (v % 4) 0 in
    rw
      (
        slot_lem v q,
        changed s u v (bit_or w (2 ^ (v / 4))) h,
        bit-bit_or (u / 4) w (2 ^ (v / 4)),
        bit-power (u / 4) (v / 4),
        same_place u v,
      )
      (elim (Bool-cases (u % 4 == v % 4)) [
        | inl e ↦
            let same : u % 4 ≡ v % 4 = (==_iff _ _).0 e in
            rw (e, same) (ground (arith, bit-lt (u / 4) w))
        | inr e ↦ rw e refl
      ])

-- The four words of two sets, one after another.
get_or-words :
    (f : ℕ → ℕ → ℕ) (xs ys : List ℕ) (i : ℕ)
    → i < length xs
    → i < length ys
    → get_or (words f xs ys) i 0 ≡ f (get_or xs i 0) (get_or ys i 0)
unfolding words
get_or-words f [] ys i p q = absurd (omega arith)
get_or-words f (x ∷ xs) [] i p q = absurd (omega arith)
get_or-words f (x ∷ xs) (y ∷ ys) zero p q = refl
get_or-words f (x ∷ xs) (y ∷ ys) (suc i) p q = get_or-words f xs ys i (omega arith) (omega arith)

module _ (a b : U8Set) (p : IsU8Set a) (q : IsU8Set b) (u : ℕ) where
  first : ℕ
  first = get_or a.slot_bit_maps (u % 4) 0

  second : ℕ
  second = get_or b.slot_bit_maps (u % 4) 0

  digit :
      (f : ℕ → ℕ → ℕ)
      → member (words f a.slot_bit_maps b.slot_bit_maps) u ≡ (bit (u / 4) (f first second) == 1)
  unfolding first second
  digit f =
      ap (λ w. bit (u / 4) w == 1)
        (get_or-words f a.slot_bit_maps b.slot_bit_maps (u % 4) (omega (arith, p.four))
          (omega (arith, q.four)))

  pub member-union :
      member (union_u8_set a b).slot_bit_maps u
      ≡ (member a.slot_bit_maps u || member b.slot_bit_maps u)
  unfolding union_u8_set first second
  member-union =
      digit bit_or
      ∙ rw (bit-bit_or (u / 4) first second)
          (ground (arith, bit-lt (u / 4) first, bit-lt (u / 4) second))

  pub member-intersection :
      member (intersection_u8_set a b).slot_bit_maps u
      ≡ (member a.slot_bit_maps u && member b.slot_bit_maps u)
  unfolding intersection_u8_set first second
  member-intersection =
      digit bit_and
      ∙ rw (bit-bit_and (u / 4) first second)
          (ground (arith, bit-lt (u / 4) first, bit-lt (u / 4) second))

  pub member-difference :
      u < 256
      → member (difference_u8_set a b).slot_bit_maps u
        ≡ (member a.slot_bit_maps u && not (member b.slot_bit_maps u))
  unfolding difference_u8_set first second
  member-difference h =
      digit (λ x y. bit_and x (complement y))
      ∙ rw
          (
            bit-bit_and (u / 4) first (complement second),
            bit-complement 64 (u / 4) second (omega arith) (q.small (u % 4)),
          )
          (ground (arith, bit-lt (u / 4) first, bit-lt (u / 4) second))
