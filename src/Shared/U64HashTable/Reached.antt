-- ===== src/Shared/U64HashTable/Reached.antt =====
-- Where the search of src/shared/utils/collections/u64_hash_table.c comes by.
use lox_vm.Prelude.{
  ℕ, zero, suc, ◌+◌, ◌%◌, ◌^◌, ◌<◌, ◌≡◌, refl, sym, ap, ◌∙◌, ◌≢◌, ◌⊎◌, inl, inr, Option, none, some,
  List, arith, ◌==◌, if◌then◌else◌, ==_iff, Bool-cases, length, get_or,
}
use native.Mathlib.Nat.{mod-add-mod}
use lox_vm.Prelude.Masks.{bit_and_ones, power_positive}
use lox_vm.Shared.U64HashTable.{
  EntryState, entry_empty, entry_value_present, entry_tombstone, U64HashTableEntry, find_rounds,
  find_u64_hash_table_entry, mark, or_else,
}
use lox_vm.Shared.U64HashTable.Probing.{nothing, one_round, in_range, searched, steps}

abbrev pub at_place : List U64HashTableEntry → ℕ → U64HashTableEntry
at_place entries q = get_or entries q nothing

-- An entry is present with a key.
abbrev pub HasKey : List U64HashTableEntry → ℕ → ℕ → Type 0
HasKey entries key q =
    ((at_place entries q).state ≡ entry_value_present) × ((at_place entries q).key ≡ key)

-- No entry on the way from the first place for a key to a place is empty.
abbrev pub IsReached : ℕ → List U64HashTableEntry → ℕ → ℕ → Type 0
IsReached k entries key q =
    (d : ℕ) × (d < 2 ^ k)
    × ((key + d) % 2 ^ k ≡ q)
    × ((j : ℕ) → j < d → (at_place entries ((key + j) % 2 ^ k)).state ≢ entry_empty)

module _ (k : ℕ) (entries : List U64HashTableEntry) (full : length entries ≡ 2 ^ k) (key : ℕ) where
  -- The search gives a place that is reached, and that has the key or is free for it.
  abbrev pub Ends : Option ℕ → Type 0
  Ends r =
      (q : ℕ) × (r ≡ some q)
      × IsReached k entries key q
      × (HasKey entries key q ⊎ ((at_place entries q).state ≢ entry_value_present))

  abbrev IsFree : Option ℕ → Type 0
  IsFree none = Unit
  IsFree (some q) = IsReached k entries key q × ((at_place entries q).state ≢ entry_value_present)

  abbrev Before : ℕ → Type 0
  Before c = (j : ℕ) → j < c → (at_place entries ((key + j) % 2 ^ k)).state ≢ entry_empty

  different : {s t u : EntryState} → s ≡ t → s ≡ u → t ≡ u
  different p q = sym p ∙ q

  present_full : entry_tombstone ≢ entry_value_present
  present_full p = ground arith

  empty_present : entry_empty ≢ entry_value_present
  empty_present p = ground arith

  tombstone_empty : entry_tombstone ≢ entry_empty
  tombstone_empty p = ground arith

  one_more :
      (c : ℕ)
      → Before c
      → (at_place entries ((key + c) % 2 ^ k)).state ≢ entry_empty
      → Before (suc c)
  one_more c h p j l = elim (Bool-cases (j == c)) [
    | inl same ↦ λ q.
        p (ap (λ j. (at_place entries ((key + j) % 2 ^ k)).state) (sym ((==_iff j c).0 same)) ∙ q)
    | inr other ↦ let less : j < c = ground arith in h j less
  ]

  -- The rounds from a step on, if an empty entry is met some steps later.
  abbrev Rounds : ℕ → ℕ → Type 0
  Rounds fuel c =
      (d : ℕ) (tombstone : Option ℕ)
      → c + d < 2 ^ k
      → d < fuel
      → (at_place entries ((key + (c + d)) % 2 ^ k)).state ≡ entry_empty
      → Before c
      → IsFree tombstone
      → Ends (find_rounds fuel entries (2 ^ k) key ((key + c) % 2 ^ k) tombstone)

  round_reach : (fuel c : ℕ) → Rounds fuel (suc c) → Rounds (suc fuel) c
  round_reach fuel c again d tombstone small h p before free =
      rw (one_round k entries full key fuel (key + c) tombstone)
        (from (at_place entries ((key + c) % 2 ^ k)).state refl)
    where
      reached : IsReached k entries key ((key + c) % 2 ^ k)
      reached = (c, omega arith, refl, before)

      place :
          (o : Option ℕ)
          → IsFree o
          → (at_place entries ((key + c) % 2 ^ k)).state ≡ entry_empty
          → Ends (some (or_else o ((key + c) % 2 ^ k)))
      place none free q =
          ((key + c) % 2 ^ k, refl, reached, inr (λ r. empty_present (different q r)))
      place (some t) (r, free) q = (t, refl, r, inr free)

      later :
          (o : Option ℕ)
          → IsFree o
          → (at_place entries ((key + c) % 2 ^ k)).state ≢ entry_empty
          → Ends (find_rounds fuel entries (2 ^ k) key ((key + c + 1) % 2 ^ k) o)
      later o free q =
          let same : key + c + 1 ≡ key + suc c = omega arith in rw same (further d p small h)
        where
          further :
              (d : ℕ)
              → (at_place entries ((key + (c + d)) % 2 ^ k)).state ≡ entry_empty
              → c + d < 2 ^ k
              → d < suc fuel
              → Ends (find_rounds fuel entries (2 ^ k) key ((key + suc c) % 2 ^ k) o)
          further zero p small h =
              let here : key + (c + 0) ≡ key + c = omega arith in
              absurd (q (ap (λ i. (at_place entries (i % 2 ^ k)).state) (sym here) ∙ p))
          further (suc d) p small h =
              let there : key + (c + suc d) ≡ key + (suc c + d) = omega arith in
              again d o (omega arith) (omega arith)
                (ap (λ i. (at_place entries (i % 2 ^ k)).state) (sym there) ∙ p)
                (one_more c before q) free

      marks :
          (s : EntryState)
          → (at_place entries ((key + c) % 2 ^ k)).state ≡ s
          → IsFree (elim s [ entry_tombstone ↦ some ((key + c) % 2 ^ k) | _ ↦ none ])
      marks entry_tombstone q = (reached, λ r. present_full (different q r))
      marks entry_empty q = tt
      marks entry_value_present q = tt

      marked :
          (o : Option ℕ)
          → IsFree o
          → IsFree (mark o (some (at_place entries ((key + c) % 2 ^ k))) ((key + c) % 2 ^ k))
      marked (some t) free = free
      marked none free = marks (at_place entries ((key + c) % 2 ^ k)).state refl

      from :
          (s : EntryState)
          → (at_place entries ((key + c) % 2 ^ k)).state ≡ s
          → Ends (elim s [
            | entry_tombstone ↦
                find_rounds fuel entries
                  (2 ^ k)
                  key
                  ((key + c + 1) % 2 ^ k)
                  (mark tombstone (some (at_place entries ((key + c) % 2 ^ k))) ((key + c) % 2 ^ k))
            | entry_value_present ↦
                if (at_place entries ((key + c) % 2 ^ k)).key == key
                then some ((key + c) % 2 ^ k)
                else find_rounds fuel entries (2 ^ k) key ((key + c + 1) % 2 ^ k) (
                    mark tombstone
                      (some (at_place entries ((key + c) % 2 ^ k)))
                      ((key + c) % 2 ^ k))
            | entry_empty ↦ some (or_else tombstone ((key + c) % 2 ^ k))
          ])
      from entry_tombstone q =
          later _ (marked tombstone free) (λ r. tombstone_empty (different q r))
      from entry_value_present q =
          elim (Bool-cases ((at_place entries ((key + c) % 2 ^ k)).key == key)) [
            | inl same ↦ rw same (
              (key + c) % 2 ^ k,
              refl,
              reached,
              inl (q, (==_iff (at_place entries ((key + c) % 2 ^ k)).key key).0 same),
            )
            | inr other ↦
                rw other (later _ (marked tombstone free) (λ r. empty_present (different r q)))
          ]
      from entry_empty q = place tombstone free q

  reach_on : (fuel c : ℕ) → Rounds fuel c
  reach_on zero c = λ d tombstone small h p before free. absurd (omega arith)
  reach_on (suc fuel) c = round_reach fuel c (reach_on fuel (suc c))

  -- As long as one entry is empty the search gives a place that is reached.
  pub find-Ends :
      (e : ℕ)
      → e < 2 ^ k
      → (at_place entries e).state ≡ entry_empty
      → (q : ℕ) × (find_u64_hash_table_entry entries (2 ^ k) key ≡ some (some q))
        × IsReached k entries key q
        × (HasKey entries key q ⊎ ((at_place entries q).state ≢ entry_value_present))
  find-Ends e h p =
      let (d, near, reached) = steps (2 ^ k) (key % 2 ^ k) e (in_range k entries full key key) h in
      let there : (key + d) % 2 ^ k ≡ e = sym (mod-add-mod key (2 ^ k) d) ∙ reached in
      let (q, found, reach, kind) =
        reach_on (2 ^ k) 0 d none (omega (arith, near)) near
          (ap (λ i. (at_place entries i).state) (ap (λ i. (key + i) % 2 ^ k) (plain d) ∙ there) ∙ p)
          (λ j l. absurd (omega arith)) tt in
      (
        q,
        first q (
            sym (ap (λ i. find_rounds (2 ^ k) entries (2 ^ k) key (i % 2 ^ k) none) (whole key))
            ∙ found),
        reach,
        kind,
      )
    where
      plain : (d : ℕ) → 0 + d ≡ d
      plain d = omega arith

      whole : (n : ℕ) → n + 0 ≡ n
      whole n = omega arith

      first :
          (q : ℕ)
          → find_rounds (2 ^ k) entries (2 ^ k) key (key % 2 ^ k) none ≡ some q
          → find_u64_hash_table_entry entries (2 ^ k) key ≡ some (some q)
      first q found =
          searched k entries full key (2 ^ k) (power_positive k) q
            (ap (λ i. find_rounds (2 ^ k) entries (2 ^ k) key i none) (bit_and_ones k key) ∙ found)
