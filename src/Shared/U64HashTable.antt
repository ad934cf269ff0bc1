-- ===== src/Shared/U64HashTable.antt =====
-- src/shared/utils/collections/u64_hash_table.c: open addressing on a capacity that is a power of two. An
-- entry is given by its place, and `NULL` for a value is 0. `none` is an access outside of the entries, or
-- a search that goes round all entries and does not end.
use lox_vm.Prelude.{
  ℕ, zero, suc, ◌+◌, ◌-◌, ◌*◌, Bool, true, false, bit_and, max, List, [], ◌∷◌, Option, none, some,
  ◌>>=◌, get_elem?, set, length, replicate, leb, ltb, ◌==◌, if◌then◌else◌,
}
pub mod Probing
pub mod Reached
pub mod Matching
pub mod Map

pub data EntryState : Type 0 where
  entry_empty entry_value_present entry_tombstone : EntryState

pub record U64HashTableEntry : Type 0 where
  pub state : EntryState
  pub key : ℕ
  pub value : ℕ

pub record U64HashTable : Type 0 where
  pub capacity : ℕ
  pub size : ℕ
  pub entries : List U64HashTableEntry

unfoldable pub init_u64_hash_table : U64HashTable
init_u64_hash_table = record { capacity = 0; size = 0; entries = [] }

-- The first tombstone that was met is kept.
abbrev pub mark : Option ℕ → Option U64HashTableEntry → ℕ → Option ℕ
mark (some place) entry index = some place
mark none none index = none
mark none (some entry) index = elim (entry.state) [ entry_tombstone ↦ some index | _ ↦ none ]

abbrev pub or_else : Option ℕ → ℕ → ℕ
or_else none index = index
or_else (some place) index = place

-- One round of the search after another.
unfoldable pub find_rounds : ℕ → List U64HashTableEntry → ℕ → ℕ → ℕ → Option ℕ → Option ℕ
find_rounds zero entries capacity key index tombstone = none
find_rounds (suc fuel) entries capacity key index tombstone =
    let rest =
      find_rounds fuel entries capacity key (bit_and (index + 1) (capacity - 1))
        (mark tombstone (get_elem? entries index) index) in
    get_elem? entries index >>= λ entry. elim (entry.state) [
      | entry_tombstone ↦ rest
      | entry_value_present ↦ if entry.key == key then some index else rest
      | entry_empty ↦ some (or_else tombstone index)
    ]

-- `some none` is the `NULL` of a table without entries.
unfoldable pub find_u64_hash_table_entry : List U64HashTableEntry → ℕ → ℕ → Option (Option ℕ)
unfolding find_rounds
find_u64_hash_table_entry entries capacity key =
    if capacity == 0
    then some none
    else find_rounds capacity entries capacity key (bit_and key (capacity - 1)) none >>= λ place.
        some (some place)

abbrev pub is_present : EntryState → Bool
is_present entry_value_present = true
is_present _ = false

unfoldable pub get_u64_hash_table : U64HashTable → ℕ → Option ℕ
unfolding find_u64_hash_table_entry
get_u64_hash_table table key =
    if table.size == 0
    then some 0
    else find_u64_hash_table_entry table.entries table.capacity key >>= λ found. elim found [
      | none ↦ some 0
      | some place ↦ get_elem? table.entries place >>= λ entry.
          some (if is_present entry.state then entry.value else 0)
    ]

unfoldable pub contains_u64_hash_table : U64HashTable → ℕ → Option Bool
unfolding find_u64_hash_table_entry
contains_u64_hash_table table key =
    if table.size == 0
    then some false
    else find_u64_hash_table_entry table.entries table.capacity key >>= λ found. elim found [
      | none ↦ some false
      | some place ↦ get_elem? table.entries place >>= λ entry. some (is_present entry.state)
    ]

abbrev pub present_entry : ℕ → ℕ → U64HashTableEntry
present_entry key value = record { state = entry_value_present; key = key; value = value }

-- The entries that are present, put into new entries one after another.
unfoldable pub rehash :
    List U64HashTableEntry → ℕ → List U64HashTableEntry → Option (List U64HashTableEntry)
unfolding find_u64_hash_table_entry
rehash [] new_capacity new_entries = some new_entries
rehash (entry ∷ old) new_capacity new_entries =
    (if is_present entry.state
      then (find_u64_hash_table_entry new_entries new_capacity entry.key >>= λ found. elim found [
        | none ↦ none
        | some place ↦ some (set new_entries place (present_entry entry.key entry.value))
      ])
      else some new_entries)
    >>= rehash old new_capacity

unfoldable pub grow_u64_hash_table : U64HashTable → Option U64HashTable
unfolding rehash
grow_u64_hash_table table =
    let new_capacity = max 8 (2 * table.capacity) in
    rehash table.entries new_capacity
      (replicate new_capacity (record { state = entry_empty; key = 0; value = 0 }))
    >>= λ new_entries. some (record table { entries = new_entries; capacity = new_capacity })

-- The entry of a key is overwritten, whichever it is.
unfoldable pub put_entry : U64HashTable → ℕ → ℕ → Option (Bool × U64HashTable)
unfolding find_u64_hash_table_entry
put_entry table key value = find_u64_hash_table_entry table.entries table.capacity key >>= λ found.
    elim found [
      | none ↦ none
      | some place ↦ get_elem? table.entries place >>= λ entry. some (
        is_present entry.state,
        record table {
          entries = set table.entries place (present_entry key value);
          size = if is_present entry.state then table.size else table.size + 1;
        },
      )
    ]

-- The table grows when three quarters of its capacity are reached.
unfoldable pub put_u64_hash_table : U64HashTable → ℕ → ℕ → Option (Bool × U64HashTable)
unfolding grow_u64_hash_table put_entry
put_u64_hash_table table key value =
    (if leb (3 * table.capacity) (4 * (table.size + 1))
      then grow_u64_hash_table table
      else some table)
    >>= λ table. put_entry table key value

unfoldable pub remove_u64_hash_table : U64HashTable → ℕ → Option U64HashTable
unfolding find_u64_hash_table_entry
remove_u64_hash_table table key =
    find_u64_hash_table_entry table.entries table.capacity key >>= λ found. elim found [
      | none ↦ some table
      | some place ↦ get_elem? table.entries place >>= λ entry. some (
          if is_present entry.state
          then record table {
            entries = set table.entries place (record entry { state = entry_tombstone });
            size = table.size - 1;
          }
          else table)
    ]

unfoldable pub clear_entries : List U64HashTableEntry → List U64HashTableEntry
clear_entries [] = []
clear_entries (entry ∷ entries) = record entry { state = entry_empty } ∷ clear_entries entries

unfoldable pub clear_u64_hash_table : U64HashTable → U64HashTable
unfolding clear_entries
clear_u64_hash_table table = record table { size = 0; entries = clear_entries table.entries }

-- The iterator has a copy of the table, whose entries are shared.
pub record U64HashTableIterator : Type 0 where
  pub hash_table : U64HashTable
  pub n_entries_returned : ℕ
  pub current_index : ℕ

unfoldable pub init_u64_hash_table_iterator : U64HashTable → U64HashTableIterator
init_u64_hash_table_iterator table = record {
  hash_table = table;
  n_entries_returned = 0;
  current_index = 0;
}

unfoldable pub has_next_u64_hash_table_iterator : U64HashTableIterator → Bool
has_next_u64_hash_table_iterator iterator = ltb iterator.n_entries_returned iterator.hash_table.size

-- The rounds are bounded by the entries from the current one on; `none` is the panic or an access behind
-- the last entry.
unfoldable pub next_rounds :
    ℕ → U64HashTableIterator → Option (U64HashTableEntry × U64HashTableIterator)
unfolding has_next_u64_hash_table_iterator
next_rounds zero iterator = none
next_rounds (suc fuel) iterator =
    let rest = next_rounds fuel (record iterator { current_index = iterator.current_index + 1 }) in
    if has_next_u64_hash_table_iterator iterator
    then (get_elem? iterator.hash_table.entries iterator.current_index >>= λ entry.
        if is_present entry.state
        then some (
          entry,
          record iterator {
            current_index = iterator.current_index + 1;
            n_entries_returned = iterator.n_entries_returned + 1;
          },
        )
        else rest)
    else none

unfoldable pub next_u64_hash_table_iterator :
    U64HashTableIterator → Option (U64HashTableEntry × U64HashTableIterator)
unfolding next_rounds
next_u64_hash_table_iterator iterator = next_rounds (suc iterator.hash_table.capacity) iterator
