-- ===== src/Shared/U64Set.antt =====
-- src/shared/utils/collections/u64_set.c: sets of words as the keys of a hash table.
use lox_vm.Prelude.{
  ℕ, zero, suc, ◌+◌, ◌%◌, Bool, true, false, Option, none, some, ◌>>=◌, ltb, if◌then◌else◌,
}
use lox_vm.Shared.U64HashTable.{
  U64HashTable, U64HashTableIterator, init_u64_hash_table, put_u64_hash_table,
  contains_u64_hash_table, remove_u64_hash_table, clear_u64_hash_table,
  init_u64_hash_table_iterator, has_next_u64_hash_table_iterator, next_u64_hash_table_iterator,
}

unfoldable pub init_u64_set : U64HashTable
unfolding init_u64_hash_table
init_u64_set = init_u64_hash_table

unfoldable pub clear_u64_set : U64HashTable → U64HashTable
unfolding clear_u64_hash_table
clear_u64_set set = clear_u64_hash_table set

unfoldable pub add_u64_set : U64HashTable → ℕ → Option U64HashTable
unfolding put_u64_hash_table
add_u64_set set value = put_u64_hash_table set value 1 >>= λ r. some r.1

unfoldable pub contains_u64_set : U64HashTable → ℕ → Option Bool
unfolding contains_u64_hash_table
contains_u64_set set value = contains_u64_hash_table set value

unfoldable pub remove_u64_set : U64HashTable → ℕ → Option U64HashTable
unfolding remove_u64_hash_table
remove_u64_set set value = remove_u64_hash_table set value

-- The size is cut to a byte.
unfoldable pub size_u64_set : U64HashTable → ℕ
size_u64_set set = set.size % 256

-- `FOR_EACH_U64_SET_VALUE`: the next value, 0 behind the last one.
unfoldable pub for_each_value : U64HashTableIterator → Option (ℕ × U64HashTableIterator)
unfolding has_next_u64_hash_table_iterator next_u64_hash_table_iterator
for_each_value iterator =
    if has_next_u64_hash_table_iterator iterator
    then (next_u64_hash_table_iterator iterator >>= λ r. some (r.0.key, r.1))
    else some (0, iterator)

unfoldable pub difference_rounds : ℕ → ℕ → U64HashTableIterator → U64HashTable → Option U64HashTable
unfolding remove_u64_set for_each_value
difference_rounds zero value iterator a = some a
difference_rounds (suc n) value iterator a =
    remove_u64_set a value >>= λ a. for_each_value iterator >>= λ r. difference_rounds n r.0 r.1 a

unfoldable pub difference_u64_set : U64HashTable → U64HashTable → Option U64HashTable
unfolding difference_rounds init_u64_hash_table_iterator for_each_value
difference_u64_set a b =
    for_each_value (init_u64_hash_table_iterator b) >>= λ r. difference_rounds b.size r.0 r.1 a

unfoldable pub is_subset_rounds : ℕ → ℕ → U64HashTableIterator → U64HashTable → Option Bool
unfolding contains_u64_set for_each_value
is_subset_rounds zero value iterator a = some true
is_subset_rounds (suc n) value iterator a = contains_u64_set a value >>= λ contained.
    if contained
    then (for_each_value iterator >>= λ r. is_subset_rounds n r.0 r.1 a)
    else some false

-- Whether `b` is a subset of `a`.
unfoldable pub is_subset_u64_set : U64HashTable → U64HashTable → Option Bool
unfolding is_subset_rounds init_u64_hash_table_iterator for_each_value
is_subset_u64_set a b =
    for_each_value (init_u64_hash_table_iterator b) >>= λ r. is_subset_rounds b.size r.0 r.1 a

-- The iterator shares the entries with the set that is changed, and the condition of the loop reads the
-- size of that set again.
unfoldable pub intersection_rounds :
    ℕ → ℕ → ℕ → U64HashTableIterator → U64HashTable → U64HashTable → Option U64HashTable
unfolding contains_u64_set remove_u64_set for_each_value
intersection_rounds zero i value iterator a b = some a
intersection_rounds (suc fuel) i value iterator a b =
    if ltb i a.size
    then (contains_u64_set b value >>= λ contained.
        (if contained then some a else remove_u64_set a value) >>= λ a.
        for_each_value
          (record iterator { hash_table = record (iterator.hash_table) { entries = a.entries } })
        >>= λ r. intersection_rounds fuel (i + 1) r.0 r.1 a b)
    else some a

unfoldable pub intersection_u64_set : U64HashTable → U64HashTable → Option U64HashTable
unfolding intersection_rounds init_u64_hash_table_iterator for_each_value
intersection_u64_set a b = for_each_value (init_u64_hash_table_iterator a) >>= λ r.
    intersection_rounds a.size 0 r.0 r.1 a b

unfoldable pub union_rounds : ℕ → U64HashTableIterator → U64HashTable → Option U64HashTable
unfolding has_next_u64_hash_table_iterator next_u64_hash_table_iterator add_u64_set
union_rounds zero iterator values =
    if has_next_u64_hash_table_iterator iterator then none else some values
union_rounds (suc n) iterator values =
    if has_next_u64_hash_table_iterator iterator
    then (next_u64_hash_table_iterator iterator >>= λ r.
        add_u64_set values r.0.key >>= λ values. union_rounds n r.1 values)
    else some values

unfoldable pub union_u64_set : U64HashTable → U64HashTable → Option U64HashTable
unfolding union_rounds init_u64_hash_table_iterator
union_u64_set values other = union_rounds other.size (init_u64_hash_table_iterator other) values

unfoldable pub clone_u64_set : U64HashTable → Option U64HashTable
unfolding init_u64_set union_u64_set
clone_u64_set to_clone = union_u64_set init_u64_set to_clone

unfoldable pub get_first_value_u64_set : U64HashTable → Option ℕ
unfolding init_u64_hash_table_iterator has_next_u64_hash_table_iterator next_u64_hash_table_iterator
get_first_value_u64_set set =
    let iterator : U64HashTableIterator = init_u64_hash_table_iterator set in
    if has_next_u64_hash_table_iterator iterator
    then (next_u64_hash_table_iterator iterator >>= λ r. some (r.0.key))
    else some 0
