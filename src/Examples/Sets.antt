-- ===== src/Examples/Sets.antt =====
-- Small sets of bytes.
use lox_vm.Prelude.{
  ℕ, zero, suc, ◌^◌, ◌<◌, ◌≡◌, refl, [], ◌∷◌, ◌||◌, ◌&&◌, not, ◌==◌, get_or, arith,
}
use lox_vm.Shared.U8Set.{
  U8Set, add_u8_set, remove_u8_set, contains_u8_set, union_u8_set, intersection_u8_set,
  difference_u8_set,
}
use lox_vm.Shared.U8Set.Members.{IsU8Set}
use lox_vm.Shared.U8Set.Laws.{u8_set_elements, u8_set_algebra}

-- 4 and 255
abbrev left : U8Set
left = record { slot_bit_maps = 2 ∷ 0 ∷ 0 ∷ 2 ^ 63 ∷ [] }

-- 1 and 4
abbrev right : U8Set
right = record { slot_bit_maps = 2 ∷ 1 ∷ 0 ∷ 0 ∷ [] }

left_small : (i : ℕ) → get_or left.slot_bit_maps i 0 < 2 ^ 64
left_small zero = omega arith
left_small (suc zero) = omega arith
left_small (suc (suc zero)) = omega arith
left_small (suc (suc (suc zero))) = omega arith
left_small (suc (suc (suc (suc i)))) = omega arith

right_small : (i : ℕ) → get_or right.slot_bit_maps i 0 < 2 ^ 64
right_small zero = omega arith
right_small (suc zero) = omega arith
right_small (suc (suc zero)) = omega arith
right_small (suc (suc (suc zero))) = omega arith
right_small (suc (suc (suc (suc i)))) = omega arith

left-IsU8Set : IsU8Set left
left-IsU8Set = record { four = refl; small = left_small }

right-IsU8Set : IsU8Set right
right-IsU8Set = record { four = refl; small = right_small }

u8_set_elements_example :
    IsU8Set (add_u8_set left 200)
    × IsU8Set (remove_u8_set left 200)
    × ((u : ℕ)
        → u < 256
        → (contains_u8_set (add_u8_set left 200) u ≡ (u == 200 || contains_u8_set left u))
          × (contains_u8_set (remove_u8_set left 200) u
              ≡ (not (u == 200) && contains_u8_set left u)))
u8_set_elements_example = u8_set_elements left 200 left-IsU8Set (omega arith)

u8_set_algebra_example :
    IsU8Set (union_u8_set left right)
    × IsU8Set (intersection_u8_set left right)
    × IsU8Set (difference_u8_set left right)
    × ((u : ℕ)
        → u < 256
        → (contains_u8_set (union_u8_set left right) u
            ≡ (contains_u8_set left u || contains_u8_set right u))
          × (contains_u8_set (intersection_u8_set left right) u
              ≡ (contains_u8_set left u && contains_u8_set right u))
          × (contains_u8_set (difference_u8_set left right) u
              ≡ (contains_u8_set left u && not (contains_u8_set right u))))
u8_set_algebra_example = u8_set_algebra left right left-IsU8Set right-IsU8Set
