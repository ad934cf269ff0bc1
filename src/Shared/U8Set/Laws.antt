-- ===== src/Shared/U8Set/Laws.antt =====
-- The functions of u8_set.c keep a set well-formed and are the operations on sets of bytes.
use lox_vm.Prelude.{
  ℕ, zero, suc, ◌*◌, ◌/◌, ◌%◌, ◌^◌, ◌<◌, ◌≡◌, refl, ap, ap₂, sym, ◌∙◌, List, [], ◌∷◌, not, ◌&&◌,
  ◌||◌, ◌==◌, bit_and, bit_or, bit_xor, get_or, set, length, length-set, arith,
}
use lox_vm.Prelude.Binary.{bit, bit-lt, bit-shift, bit_or-lt, bit_xor-lt, bit_and-lt}
use lox_vm.Shared.U8Set.{
  U8Set, complement, add_u8_set, contains_u8_set, remove_u8_set, words, union_u8_set,
  difference_u8_set, intersection_u8_set,
}
use lox_vm.Shared.U8Set.Members.{
  IsU8Set, slot_lem, contains-member, member-add, member-union, member-intersection,
  member-difference, power-pos,
}
use lox_vm.Shared.U8Set.Sets.{flipped_lem, member-remove}

power-lt : (j n : ℕ) → j < n → 2 ^ j < 2 ^ n
power-lt j zero h = absurd (omega arith)
power-lt zero (suc n) h = omega (arith, power-pos n)
power-lt (suc j) (suc n) h = omega (arith, power-lt j n (omega arith))

scaled-lt : (d j : ℕ) → d < 2 → j < 64 → d * 2 ^ j < 2 ^ 64
scaled-lt zero j h k = omega arith
scaled-lt (suc zero) j h k = omega (arith, power-lt j 64 k)
scaled-lt (suc (suc d)) j h k = absurd (omega arith)

length-words :
    (f : ℕ → ℕ → ℕ) (xs ys : List ℕ) → length xs ≡ length ys → length (words f xs ys) ≡ length xs
unfolding words
length-words f [] ys h = refl
length-words f (x ∷ xs) [] h = absurd (omega (arith, h))
length-words f (x ∷ xs) (y ∷ ys) h = ap suc (length-words f xs ys (omega (arith, h)))

Small : List ℕ → Type 0
Small xs = (i : ℕ) → get_or xs i 0 < 2 ^ 64

words-Small :
    (f : ℕ → ℕ → ℕ)
    → ((x y : ℕ) → x < 2 ^ 64 → y < 2 ^ 64 → f x y < 2 ^ 64)
    → (xs ys : List ℕ) → Small xs
    → Small ys
    → Small (words f xs ys)
unfolding words Small
words-Small f h [] ys p q i = omega arith
words-Small f h (x ∷ xs) [] p q i = omega arith
words-Small f h (x ∷ xs) (y ∷ ys) p q zero = h x y (p 0) (q 0)
words-Small f h (x ∷ xs) (y ∷ ys) p q (suc i) =
    words-Small f h xs ys (λ j. p (suc j)) (λ j. q (suc j)) i

set-Small : (xs : List ℕ) (i w : ℕ) → Small xs → w < 2 ^ 64 → Small (set xs i w)
unfolding Small
set-Small [] i w p h j = omega arith
set-Small (x ∷ xs) zero w p h zero = h
set-Small (x ∷ xs) zero w p h (suc j) = p (suc j)
set-Small (x ∷ xs) (suc i) w p h zero = p 0
set-Small (x ∷ xs) (suc i) w p h (suc j) = set-Small xs i w (λ k. p (suc k)) h j

-- A new word in the place of an old one.
set-IsU8Set :
    (s : U8Set) (i w : ℕ)
    → IsU8Set s
    → w < 2 ^ 64
    → IsU8Set (record { slot_bit_maps = set s.slot_bit_maps i w })
unfolding Small
set-IsU8Set s i w v h = record {
  four = length-set s.slot_bit_maps i w ∙ v.four;
  small = set-Small s.slot_bit_maps i w v.small h;
}

words-IsU8Set :
    (f : ℕ → ℕ → ℕ)
    → ((x y : ℕ) → x < 2 ^ 64 → y < 2 ^ 64 → f x y < 2 ^ 64)
    → (a b : U8Set) → IsU8Set a
    → IsU8Set b
    → IsU8Set (record { slot_bit_maps = words f a.slot_bit_maps b.slot_bit_maps })
unfolding Small
words-IsU8Set f h a b p q = record {
  four = length-words f a.slot_bit_maps b.slot_bit_maps (p.four ∙ sym q.four) ∙ p.four;
  small = λ i. words-Small f h a.slot_bit_maps b.slot_bit_maps p.small q.small i;
}

add-IsU8Set : (s : U8Set) (v : ℕ) → IsU8Set s → v < 256 → IsU8Set (add_u8_set s v)
unfolding add_u8_set
add-IsU8Set s v p h =
    set-IsU8Set s _ _ p
      (bit_or-lt 64 _ (2 ^ (v / 4)) (p.small _) (power-lt (v / 4) 64 (omega arith)))

remove-IsU8Set : (s : U8Set) (v : ℕ) → IsU8Set s → v < 256 → IsU8Set (remove_u8_set s v)
unfolding remove_u8_set
remove-IsU8Set s v p h =
    let w = get_or s.slot_bit_maps (v % 4) 0 in
    let d = bit (v / 4) w in
    rw (slot_lem v h, bit-shift (v / 4) w, flipped_lem d (v / 4) (bit-lt (v / 4) w))
      (set-IsU8Set s (v % 4) (bit_xor w (d * 2 ^ (v / 4))) p (
        bit_xor-lt 64 w (d * 2 ^ (v / 4)) (p.small (v % 4))
          (scaled-lt d (v / 4) (bit-lt (v / 4) w) (omega arith))))

-- `add_u8_set` and `remove_u8_set` keep a set well-formed and change the membership of one byte only.
pub u8_set_elements :
    (s : U8Set) (v : ℕ)
    → IsU8Set s
    → v < 256
    → IsU8Set (add_u8_set s v)
      × IsU8Set (remove_u8_set s v)
      × ((u : ℕ)
          → u < 256
          → (contains_u8_set (add_u8_set s v) u ≡ (u == v || contains_u8_set s u))
            × (contains_u8_set (remove_u8_set s v) u ≡ (not (u == v) && contains_u8_set s u)))
u8_set_elements s v p h = (
  add-IsU8Set s v p h,
  remove-IsU8Set s v p h,
  λ u k. (
    contains-member (add_u8_set s v) u k
        ∙ member-add s u v p.four h
        ∙ ap (λ b. u == v || b) (sym (contains-member s u k)),
    contains-member (remove_u8_set s v) u k
        ∙ member-remove s u v p.four h
        ∙ ap (λ b. not (u == v) && b) (sym (contains-member s u k)),
  ),
)

-- `union_u8_set`, `intersection_u8_set` and `difference_u8_set` of well-formed sets are well-formed, and are
-- the operations on the sets of bytes.
pub u8_set_algebra :
    (a b : U8Set)
    → IsU8Set a
    → IsU8Set b
    → IsU8Set (union_u8_set a b)
      × IsU8Set (intersection_u8_set a b)
      × IsU8Set (difference_u8_set a b)
      × ((u : ℕ)
          → u < 256
          → (contains_u8_set (union_u8_set a b) u ≡ (contains_u8_set a u || contains_u8_set b u))
            × (contains_u8_set (intersection_u8_set a b) u
                ≡ (contains_u8_set a u && contains_u8_set b u))
            × (contains_u8_set (difference_u8_set a b) u
                ≡ (contains_u8_set a u && not (contains_u8_set b u))))
unfolding union_u8_set intersection_u8_set difference_u8_set
u8_set_algebra a b p q = (
  words-IsU8Set bit_or (bit_or-lt 64) a b p q,
  words-IsU8Set bit_and (λ x y h k. bit_and-lt 64 x y h) a b p q,
  words-IsU8Set (λ x y. bit_and x (complement y)) (λ x y h k. bit_and-lt 64 x (complement y) h) a b
      p q,
  λ u k.
      let same_a = sym (contains-member a u k) in
      let same_b = sym (contains-member b u k) in
      (
        contains-member (union_u8_set a b) u k
            ∙ member-union a b p q u
            ∙ ap₂ (λ x y. x || y) same_a same_b,
        contains-member (intersection_u8_set a b) u k
            ∙ member-intersection a b p q u
            ∙ ap₂ (λ x y. x && y) same_a same_b,
        contains-member (difference_u8_set a b) u k
            ∙ member-difference a b p q u k
            ∙ ap₂ (λ x y. x && not y) same_a same_b,
      ),
)
