-- ===== src/Shared/U8Set.antt =====
-- src/shared/utils/collections/u8_set.c: a set of bytes in four words of 64 bits.
pub mod Members
pub mod Sets
pub mod Laws
use lox_vm.Prelude.{
  ℕ, zero, suc, ◌+◌, ◌-◌, ◌*◌, ◌/◌, ◌%◌, ◌^◌, List, [], ◌∷◌, Bool, not, ◌==◌, bit_and, bit_or,
  bit_xor, get_or, set,
}

pub record U8Set : Type 0 where
  pub slot_bit_maps : List ℕ

abbrev pub value_to_slot_index : ℕ → ℕ
value_to_slot_index value = bit_and value 0x03

abbrev pub value_to_slot_bit_index : ℕ → ℕ
value_to_slot_bit_index value = value / 2 ^ 2

unfoldable pub init_u8_set : U8Set
init_u8_set = record { slot_bit_maps = 0 ∷ 0 ∷ 0 ∷ 0 ∷ [] }

unfoldable pub clear_u8_set : U8Set → U8Set
clear_u8_set set = record { slot_bit_maps = 0 ∷ 0 ∷ 0 ∷ 0 ∷ [] }

-- the word of a value
abbrev pub word : U8Set → ℕ → ℕ
word s value = get_or s.slot_bit_maps (value_to_slot_index value) 0

unfoldable pub add_u8_set : U8Set → ℕ → U8Set
add_u8_set s value_to_add = record {
  slot_bit_maps =
      set s.slot_bit_maps (value_to_slot_index value_to_add)
        (bit_or (word s value_to_add) (2 ^ value_to_slot_bit_index value_to_add));
}

unfoldable pub contains_u8_set : U8Set → ℕ → Bool
contains_u8_set s value_to_check =
    not (bit_and (word s value_to_check) (2 ^ value_to_slot_bit_index value_to_check) == 0)

-- `~x` on 64 bits
abbrev pub complement : ℕ → ℕ
complement x = 2 ^ 64 - 1 - x

unfoldable pub remove_u8_set : U8Set → ℕ → U8Set
remove_u8_set s value_to_remove =
    let i = value_to_slot_bit_index value_to_remove in
    let substraction_result = (word s value_to_remove / 2 ^ i % 2 + (2 ^ 64 - 1)) % 2 ^ 64 in
    let new_slot_bit_map = bit_and (complement substraction_result) 0x01 * 2 ^ i in
    record {
      slot_bit_maps =
          set s.slot_bit_maps (value_to_slot_index value_to_remove)
            (bit_xor (word s value_to_remove) new_slot_bit_map);
    }

-- `f` on each of the four words of two sets
unfoldable pub words : (ℕ → ℕ → ℕ) → List ℕ → List ℕ → List ℕ
words f (x ∷ xs) (y ∷ ys) = f x y ∷ words f xs ys
words f _ _ = []

unfoldable pub union_u8_set : U8Set → U8Set → U8Set
unfolding words
union_u8_set a b = record { slot_bit_maps = words bit_or a.slot_bit_maps b.slot_bit_maps }

unfoldable pub difference_u8_set : U8Set → U8Set → U8Set
unfolding words
difference_u8_set a b = record {
  slot_bit_maps = words (λ x y. bit_and x (complement y)) a.slot_bit_maps b.slot_bit_maps;
}

unfoldable pub intersection_u8_set : U8Set → U8Set → U8Set
unfolding words
intersection_u8_set a b = record { slot_bit_maps = words bit_and a.slot_bit_maps b.slot_bit_maps }

-- `__builtin_popcountll`
unfoldable pub popcount : ℕ → ℕ → ℕ
popcount zero x = 0
popcount (suc n) x = x % 2 + popcount n (x / 2)

unfoldable pub add_sizes : List ℕ → ℕ
unfolding popcount
add_sizes [] = 0
add_sizes (x ∷ xs) = popcount 64 x + add_sizes xs

unfoldable pub size_u8_set : U8Set → ℕ
unfolding add_sizes
size_u8_set s = add_sizes s.slot_bit_maps % 2 ^ 8
