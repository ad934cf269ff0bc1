-- ===== src/Shared/U64HashTable/Probing.antt =====
-- The search of src/shared/utils/collections/u64_hash_table.c.
use lox_vm.Prelude.{
  ℕ, zero, suc, ◌+◌, ◌-◌, ◌%◌, ◌^◌, ◌≤◌, ◌<◌, bit_and, ◌≡◌, refl, ap, ◌∙◌, ◌≢◌, inl, inr, false,
  Option, none, some, List, [], ◌∷◌, arith, leb, ◌==◌, if◌then◌else◌, Bool-cases, length, get_elem?,
  get_or, ◌>>=◌,
}
use native.Mathlib.Nat.{mod-lt, mod-add-mod, mod-eq_of_lt, add-mod_right}
use lox_vm.Prelude.Masks.{bit_and_ones, power_positive}
use lox_vm.Shared.U64HashTable.{
  EntryState, entry_empty, entry_value_present, entry_tombstone, U64HashTableEntry, find_rounds,
  find_u64_hash_table_entry, mark, or_else,
}

pub get_elem?-get_or {ℓ} :
    {A : Type ℓ} (xs : List A) (i : ℕ) (d : A)
    → i < length xs
    → get_elem? xs i ≡ some (get_or xs i d)
get_elem?-get_or [] i d h = absurd (omega arith)
get_elem?-get_or (x ∷ xs) zero d h = refl
get_elem?-get_or (x ∷ xs) (suc i) d h = get_elem?-get_or xs i d (omega arith)

abbrev pub nothing : U64HashTableEntry
nothing = record { state = entry_empty; key = 0; value = 0 }

-- The steps from one place of a ring to another.
pub steps : (m r e : ℕ) → r < m → e < m → (d : ℕ) × (d < m) × ((r + d) % m ≡ e)
steps m r e h l = elim (Bool-cases (leb r e)) [
  | inl p ↦
      let before : r ≤ e = ground arith in
      let there : r + (e - r) ≡ e = omega arith in
      (e - r, omega arith, ap (λ x. x % m) there ∙ mod-eq_of_lt l)
  | inr p ↦
      let behind : e < r = ground arith in
      let around : r + (e + m - r) ≡ e + m = omega arith in
      (e + m - r, omega arith, ap (λ x. x % m) around ∙ add-mod_right e m ∙ mod-eq_of_lt l)
]

-- What an entry does with a round of the search.
abbrev pub after : U64HashTableEntry → ℕ → ℕ → Option ℕ → Option ℕ → Option ℕ
after entry key index tombstone rest = elim (entry.state) [
  | entry_tombstone ↦ rest
  | entry_value_present ↦ if entry.key == key then some index else rest
  | entry_empty ↦ some (or_else tombstone index)
]

-- A table of 2 ^ k entries and a key.
module _ (k : ℕ) (entries : List U64HashTableEntry) (full : length entries ≡ 2 ^ k) (key : ℕ) where
  -- The entry that comes a number of steps behind the first one.
  abbrev pub entry_at : ℕ → U64HashTableEntry
  entry_at i = get_or entries (i % 2 ^ k) nothing

  pub in_range : (i : ℕ) → i % 2 ^ k < 2 ^ k
  in_range i = mod-lt i (power_positive k)

  next_index : (i : ℕ) → bit_and (i % 2 ^ k + 1) (2 ^ k - 1) ≡ (i + 1) % 2 ^ k
  next_index i = bit_and_ones k (i % 2 ^ k + 1) ∙ mod-add-mod i (2 ^ k) 1

  pub one_round :
      (fuel i : ℕ) (tombstone : Option ℕ)
      → find_rounds (suc fuel) entries (2 ^ k) key (i % 2 ^ k) tombstone
        ≡ after (entry_at i) key (i % 2 ^ k) tombstone (
            find_rounds fuel entries
              (2 ^ k)
              key
              ((i + 1) % 2 ^ k)
              (mark tombstone (some (entry_at i)) (i % 2 ^ k)))
  unfolding find_rounds
  one_round fuel i tombstone =
      ap
        (λ o. o >>= λ entry. after entry key (i % 2 ^ k) tombstone (
          find_rounds fuel entries (2 ^ k) key (bit_and (i % 2 ^ k + 1) (2 ^ k - 1))
            (mark tombstone o (i % 2 ^ k))))
        (get_elem?-get_or entries (i % 2 ^ k) nothing (omega (arith, full, in_range i)))
      ∙ ap
          (λ n. after (entry_at i) key (i % 2 ^ k) tombstone (
            find_rounds fuel entries (2 ^ k) key n
              (mark tombstone (some (entry_at i)) (i % 2 ^ k))))
          (next_index i)

  -- The search ends at an entry that is empty or has the key.
  abbrev pub Passes : U64HashTableEntry → Type 0
  Passes entry = (entry.state ≢ entry_empty) × (entry.state ≡ entry_value_present → entry.key ≢ key)

  passed :
      (entry : U64HashTableEntry) (index : ℕ) (tombstone : Option ℕ)
      → Passes entry
      → after entry key index tombstone none ≡ none
  passed entry index tombstone (p, q) = from entry.state p q
    where
      from :
          (s : EntryState)
          → s ≢ entry_empty
          → (s ≡ entry_value_present → entry.key ≢ key)
          → elim s [
            | entry_tombstone ↦ none
            | entry_value_present ↦ if entry.key == key then some index else none
            | entry_empty ↦ some (or_else tombstone index)
          ]
            ≡ none
      from entry_empty p q = absurd (p refl)
      from entry_tombstone p q = refl
      from entry_value_present p q = let other : entry.key ≢ key = q refl in ground arith

  -- In a table without an empty entry the search for a key that is not there never ends: no number of
  -- rounds is enough.
  pub find_rounds-Passes :
      ((i : ℕ) → Passes (entry_at i))
      → (fuel i : ℕ) (tombstone : Option ℕ)
      → find_rounds fuel entries (2 ^ k) key (i % 2 ^ k) tombstone ≡ none
  unfolding find_rounds
  find_rounds-Passes all zero i tombstone = refl
  find_rounds-Passes all (suc fuel) i tombstone =
      one_round fuel i tombstone
      ∙ ap (after (entry_at i) key (i % 2 ^ k) tombstone) (find_rounds-Passes all fuel (i + 1) _)
      ∙ passed (entry_at i) (i % 2 ^ k) tombstone (all i)

  pub searched :
      (c : ℕ)
      → 0 < c
      → (q : ℕ) → find_rounds c entries c key (bit_and key (c - 1)) none ≡ some q
      → find_u64_hash_table_entry entries c key ≡ some (some q)
  unfolding find_u64_hash_table_entry
  searched c pos q found = let other : (c == 0) ≡ false = ground arith in rw (other, found) refl
