-- ===== src/Shared/U64HashTable/Matching.antt =====
-- The search of src/shared/utils/collections/u64_hash_table.c for a key that is there.
use lox_vm.Prelude.{
  ℕ, zero, suc, ◌+◌, ◌%◌, ◌^◌, ◌<◌, ◌≡◌, refl, sym, ap, ◌∙◌, ◌≢◌, ◌⊎◌, inl, inr, Option, none, some,
  List, arith, ◌==◌, if◌then◌else◌, ==_iff, Bool-cases, length,
}
use lox_vm.Prelude.Masks.{bit_and_ones, power_positive}
use lox_vm.Shared.U64HashTable.{
  EntryState, entry_empty, entry_value_present, entry_tombstone, U64HashTableEntry, find_rounds,
  find_u64_hash_table_entry, mark, or_else,
}
use lox_vm.Shared.U64HashTable.Probing.{one_round, after, searched}
use lox_vm.Shared.U64HashTable.Reached.{at_place, HasKey, IsReached}

module _ (k : ℕ) (entries : List U64HashTableEntry) (full : length entries ≡ 2 ^ k) (key : ℕ) where
  abbrev Before : ℕ → Type 0
  Before c = (j : ℕ) → j < c → (at_place entries ((key + j) % 2 ^ k)).state ≢ entry_empty

  abbrev pub Matches : Option ℕ → Type 0
  Matches r = (q : ℕ) × (r ≡ some q) × HasKey entries key q

  -- An entry that is not empty is passed or has the key.
  after_full :
      (entry : U64HashTableEntry) (index : ℕ) (tombstone rest : Option ℕ)
      → entry.state ≢ entry_empty
      → (after entry key index tombstone rest ≡ rest)
        ⊎ ((after entry key index tombstone rest ≡ some index)
            × (entry.state ≡ entry_value_present)
            × (entry.key ≡ key))
  after_full entry index tombstone rest h = from entry.state refl
    where
      Passed : Option ℕ → Type 0
      Passed r =
          (r ≡ rest) ⊎ ((r ≡ some index) × (entry.state ≡ entry_value_present) × (entry.key ≡ key))

      from :
          (s : EntryState)
          → entry.state ≡ s
          → Passed (elim s [
            | entry_tombstone ↦ rest
            | entry_value_present ↦ if entry.key == key then some index else rest
            | entry_empty ↦ some (or_else tombstone index)
          ])
      from entry_tombstone q = inl refl
      from entry_empty q = absurd (h q)
      from entry_value_present q = elim (Bool-cases (entry.key == key)) [
        | inl same ↦ rw same (inr (refl, q, (==_iff entry.key key).0 same))
        | inr other ↦ rw other (inl refl)
      ]

  own_entry :
      (entry : U64HashTableEntry) (index : ℕ) (tombstone rest : Option ℕ)
      → entry.state ≡ entry_value_present
      → entry.key ≡ key
      → after entry key index tombstone rest ≡ some index
  own_entry entry index tombstone rest p q =
      ap
        (λ s. elim s [
          | entry_tombstone ↦ rest
          | entry_value_present ↦ if entry.key == key then some index else rest
          | entry_empty ↦ some (or_else tombstone index)
        ])
        p
      ∙ ap (λ b. if b then some index else rest) ((==_iff entry.key key).1 q)

  -- An entry with the key that is reached is not passed over.
  match_rounds :
      (fuel c d : ℕ) (tombstone : Option ℕ)
      → d < fuel
      → HasKey entries key ((key + (c + d)) % 2 ^ k)
      → Before (c + d)
      → Matches (find_rounds fuel entries (2 ^ k) key ((key + c) % 2 ^ k) tombstone)
  match_rounds zero c d tombstone h p before = absurd (omega arith)
  match_rounds (suc fuel) c zero tombstone h (p, same) before =
      let here : key + (c + 0) ≡ key + c = omega arith in
      let state : (at_place entries ((key + c) % 2 ^ k)).state ≡ entry_value_present =
        ap (λ i. (at_place entries (i % 2 ^ k)).state) (sym here) ∙ p in
      let own : (at_place entries ((key + c) % 2 ^ k)).key ≡ key =
        ap (λ i. (at_place entries (i % 2 ^ k)).key) (sym here) ∙ same in
      (
        (key + c) % 2 ^ k,
        one_round k entries full key fuel (key + c) tombstone
            ∙ own_entry (at_place entries ((key + c) % 2 ^ k)) _ tombstone _ state own,
        (state, own),
      )
  match_rounds (suc fuel) c (suc d) tombstone h p before =
      let there : key + (c + suc d) ≡ key + (suc c + d) = omega arith in
      let further : key + c + 1 ≡ key + suc c = omega arith in
      let (q, found, has) =
        match_rounds fuel (suc c) d
          (mark tombstone (some (at_place entries ((key + c) % 2 ^ k))) ((key + c) % 2 ^ k))
          (omega arith) (rw⁻¹ there p) (λ j l. before j (omega arith)) in
      elim (after_full (at_place entries ((key + c) % 2 ^ k)) ((key + c) % 2 ^ k) tombstone
        (find_rounds fuel entries (2 ^ k) key ((key + c + 1) % 2 ^ k)
          (mark tombstone (some (at_place entries ((key + c) % 2 ^ k))) ((key + c) % 2 ^ k)))
        (before c (omega arith))) [
          | inl rest ↦ (
            q,
            one_round k entries full key fuel (key + c) tombstone
                ∙ rest
                ∙ ap
                    (λ i. find_rounds fuel entries (2 ^ k) key (i % 2 ^ k) (
                      mark tombstone (some (at_place entries ((key + c) % 2 ^ k)))
                        ((key + c) % 2 ^ k)))
                    further
                ∙ found,
            has,
          )
          | inr (own, state, same) ↦ (
            (key + c) % 2 ^ k,
            one_round k entries full key fuel (key + c) tombstone ∙ own,
            (state, same),
          )
        ]

  pub find-Matches :
      (p : ℕ)
      → HasKey entries key p
      → IsReached k entries key p
      → (q : ℕ) × (find_u64_hash_table_entry entries (2 ^ k) key ≡ some (some q))
        × HasKey entries key q
  find-Matches p has (d, near, there, before) =
      let whole : key + 0 ≡ key = omega arith in
      let plain : key + (0 + d) ≡ key + d = omega arith in
      let (q, found, same) =
        match_rounds (2 ^ k) 0 d none near (rw (plain, there) has)
          (λ j l. before j (omega arith)) in
      (
        q,
        searched k entries full key (2 ^ k) (power_positive k) q (
            ap (λ i. find_rounds (2 ^ k) entries (2 ^ k) key i none) (bit_and_ones k key)
            ∙ ap (λ i. find_rounds (2 ^ k) entries (2 ^ k) key (i % 2 ^ k) none) (sym whole)
            ∙ found),
        same,
      )
