-- ===== src/Examples/Tables.antt =====
-- Hash tables and sets of words at concrete inputs.
use lox_vm.Prelude.{
  ℕ, zero, suc, ◌%◌, ◌<◌, ◌≡◌, ◌≢◌, refl, ap, sym, ◌∙◌, Bool, true, Option, none, some, ◌>>=◌,
  arith, get_or, get_or-replicate, replicate, ◌==◌, if◌then◌else◌,
}
use lox_vm.Shared.U64HashTable.{
  U64HashTable, U64HashTableEntry, entry_empty, entry_tombstone, entry_value_present,
  init_u64_hash_table, put_u64_hash_table, remove_u64_hash_table, find_rounds, get_u64_hash_table,
  put_entry,
}
use lox_vm.Shared.U64HashTable.Probing.{find_rounds-Passes, nothing}
use lox_vm.Shared.U64HashTable.Reached.{HasKey}
use lox_vm.Shared.U64HashTable.Map.{IsWellFormed, get-put_entry}
use lox_vm.Shared.U64Set.{init_u64_set, add_u64_set, intersection_u64_set, contains_u64_set}

abbrev pass_through : ℕ → U64HashTable → Option U64HashTable
pass_through key table = put_u64_hash_table table key 1 >>= λ r. remove_u64_hash_table r.1 key

-- Eight keys that were put and removed one after another fill the table with tombstones, and the search for
-- another key does not end.
abbrev eight_keys : Option U64HashTable
eight_keys =
    pass_through 1 init_u64_hash_table
    >>= pass_through 2
    >>= pass_through 3
    >>= pass_through 4
    >>= pass_through 5
    >>= pass_through 6
    >>= pass_through 7
    >>= pass_through 8

stuck : (eight_keys >>= λ table. remove_u64_hash_table table 9) ≡ none
unfolding init_u64_hash_table put_u64_hash_table remove_u64_hash_table
stuck = refl

-- The intersection of {1, 2} with the empty set.
left_over :
    (add_u64_set init_u64_set 1 >>= λ a.
    add_u64_set a 2 >>= λ a. intersection_u64_set a init_u64_set >>= λ a. contains_u64_set a 2)
    ≡ some true
unfolding init_u64_set add_u64_set intersection_u64_set contains_u64_set
left_over = refl

abbrev tombstone : U64HashTableEntry
tombstone = record { state = entry_tombstone; key = 1; value = 1 }

replicated : (n i : ℕ) → i < n → get_or (replicate n tombstone) i nothing ≡ tombstone
replicated zero i h = absurd (omega arith)
replicated (suc n) zero h = refl
replicated (suc n) (suc i) h = replicated n i (omega arith)

only_tombstones :
    (i : ℕ)
    → ((get_or (replicate 8 tombstone) (i % 8) nothing).state ≢ entry_empty)
      × ((get_or (replicate 8 tombstone) (i % 8) nothing).state ≡ entry_value_present
          → (get_or (replicate 8 tombstone) (i % 8) nothing).key ≢ 9)
only_tombstones i =
    rw (replicated 8 (i % 8) (omega arith))
      ((λ p. absurd (ground arith)), (λ p q. absurd (ground arith)))

find_rounds-Passes_example : find_rounds 100 (replicate 8 tombstone) 8 9 1 none ≡ none
find_rounds-Passes_example =
    find_rounds-Passes 3 (replicate 8 tombstone) refl 9 only_tombstones 100 1 none

abbrev empty_table : U64HashTable
empty_table = record { capacity = 8; size = 0; entries = replicate 8 nothing }

nowhere : (key p : ℕ) → ¬ HasKey (replicate 8 nothing) key p
nowhere key p (state, own) = vacant (sym (ap (λ x. x.state) (get_or-replicate 8 p nothing)) ∙ state)
  where
    vacant : entry_empty ≢ entry_value_present
    vacant p = ground arith

empty_table-IsWellFormed : IsWellFormed 3 empty_table
empty_table-IsWellFormed = record {
  capacity_eq = refl;
  length_eq = refl;
  unique = λ key p q h. absurd (nowhere key p h);
  reached = λ key p h. absurd (nowhere key p h);
  counted = λ z key p. nowhere key p;
}

get-put_entry_example :
    (u : Bool × U64HashTable) × (put_entry empty_table 5 7 ≡ some u)
    × IsWellFormed 3 u.1
    × ((key : ℕ)
        → get_u64_hash_table u.1 key
          ≡ (if 5 == key then some 7 else get_u64_hash_table empty_table key))
get-put_entry_example =
    get-put_entry 3 empty_table 5 7 0 1 empty_table-IsWellFormed (λ p. absurd (ground arith))
      (omega arith) (omega arith) refl refl
