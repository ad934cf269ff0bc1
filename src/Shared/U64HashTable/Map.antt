-- ===== src/Shared/U64HashTable/Map.antt =====
-- The table of src/shared/utils/collections/u64_hash_table.c as a map from keys to values.
use lox_vm.Prelude.{
  ℕ, ◌+◌, ◌^◌, ◌<◌, ◌≡◌, refl, sym, ap, ◌∙◌, ◌≢◌, ◌⊎◌, inl, inr, Bool, false, none, some, List,
  arith, ◌==◌, if◌then◌else◌, ==_iff, Bool-cases, length, set, length-set, get_or-set_self,
  get_or-set_ne,
}
use native.Mathlib.Nat.{mod-lt}
use lox_vm.Prelude.Masks.{power_positive}
use lox_vm.Shared.U64HashTable.{
  EntryState, entry_empty, entry_value_present, entry_tombstone, U64HashTableEntry, U64HashTable,
  is_present, present_entry, find_u64_hash_table_entry, get_u64_hash_table, put_entry,
}
use lox_vm.Shared.U64HashTable.Probing.{nothing, get_elem?-get_or}
use lox_vm.Shared.U64HashTable.Matching.{find-Matches}
use lox_vm.Shared.U64HashTable.Reached.{at_place, HasKey, IsReached, find-Ends}

-- The capacity is 2 ^ k, no two places have the same key, a search comes by every entry that is present,
-- and without an entry the size is zero.
pub record IsWellFormed (k : ℕ) (table : U64HashTable) : Type 0 where
  pub capacity_eq : table.capacity ≡ 2 ^ k
  pub length_eq : length table.entries ≡ 2 ^ k
  pub unique : (key p q : ℕ) → HasKey table.entries key p → HasKey table.entries key q → p ≡ q
  pub reached : (key p : ℕ) → HasKey table.entries key p → IsReached k table.entries key p
  pub counted : table.size ≡ 0 → (key p : ℕ) → ¬ HasKey table.entries key p

some_injective : {a b : ℕ} → some (some a) ≡ some (some b) → a ≡ b
some_injective {a = a} p =
    ap (λ o. elim o [ none ↦ a | some o ↦ elim o [ none ↦ a | some x ↦ x ] ]) p

absent : (s : EntryState) → s ≢ entry_value_present → is_present s ≡ false
absent entry_empty h = refl
absent entry_tombstone h = refl
absent entry_value_present h = absurd (h refl)

module _ (k : ℕ) (t : U64HashTable) (wf : IsWellFormed k t) where
  found_at :
      (key q : ℕ)
      → find_u64_hash_table_entry t.entries (2 ^ k) key ≡ some (some q)
      → find_u64_hash_table_entry t.entries t.capacity key ≡ some (some q)
  found_at key q p = ap (λ c. find_u64_hash_table_entry t.entries c key) wf.capacity_eq ∙ p

  reached-lt : (key q : ℕ) → IsReached k t.entries key q → q < length t.entries
  reached-lt key q (d, near, there, before) =
      omega (arith, wf.length_eq, there, mod-lt (key + d) (power_positive k))

  read_at :
      (key q : ℕ)
      → find_u64_hash_table_entry t.entries (2 ^ k) key ≡ some (some q)
      → q < length t.entries
      → t.size ≢ 0
      → get_u64_hash_table t key
        ≡ some (if is_present (at_place t.entries q).state then (at_place t.entries q).value else 0)
  unfolding get_u64_hash_table
  read_at key q found small size =
      let filled : (t.size == 0) ≡ false = ground arith in
      rw (filled, found_at key q found, get_elem?-get_or t.entries q nothing small) refl

  -- Places with the key of a search are its result.
  owner :
      (key q p : ℕ)
      → find_u64_hash_table_entry t.entries (2 ^ k) key ≡ some (some q)
      → HasKey t.entries key p
      → p ≡ q
  owner key q p found has =
      let (r, found_r, has_r) =
        find-Matches k t.entries wf.length_eq key p has (wf.reached key p has) in
      wf.unique key p r has has_r ∙ some_injective (sym found_r ∙ found)

  get-HasKey :
      (key p : ℕ)
      → HasKey t.entries key p
      → get_u64_hash_table t key ≡ some (at_place t.entries p).value
  get-HasKey key p has =
      let (r, found, has_r) =
        find-Matches k t.entries wf.length_eq key p has (wf.reached key p has) in
      let same : p ≡ r = wf.unique key p r has has_r in
      read_at key r found (reached-lt key r (wf.reached key r has_r)) (λ z. wf.counted z key p has)
      ∙ ap (λ b. some (if b then (at_place t.entries r).value else 0)) (ap is_present has_r.0)
      ∙ ap (λ i. some (at_place t.entries i).value) (sym same)

  get-absent :
      (key q : ℕ)
      → find_u64_hash_table_entry t.entries (2 ^ k) key ≡ some (some q)
      → IsReached k t.entries key q
      → (at_place t.entries q).state ≢ entry_value_present
      → get_u64_hash_table t key ≡ some 0
  unfolding get_u64_hash_table
  get-absent key q found reach free = elim (Bool-cases (t.size == 0)) [
    | inl zero_size ↦ rw zero_size refl
    | inr filled ↦
        read_at key q found (reached-lt key q reach) (λ z. other filled z)
        ∙ ap (λ b. some (if b then (at_place t.entries q).value else 0)) (absent _ free)
  ]
    where
      other : (t.size == 0) ≡ false → t.size ≢ 0
      other p z = ground arith

  -- Putting a key at the place that the search gives for it.
  module _ (key v q : ℕ) (found : find_u64_hash_table_entry t.entries (2 ^ k) key ≡ some (some q))
      (reach : IsReached k t.entries key q)
      (kind : HasKey t.entries key q ⊎ ((at_place t.entries q).state ≢ entry_value_present)) where
    abbrev entries' : List U64HashTableEntry
    entries' = set t.entries q (present_entry key v)

    at_self : at_place entries' q ≡ present_entry key v
    at_self = get_or-set_self t.entries q (present_entry key v) nothing (reached-lt key q reach)

    at_other : (p : ℕ) → q ≢ p → at_place entries' p ≡ at_place t.entries p
    at_other p h = get_or-set_ne t.entries q p (present_entry key v) nothing h

    -- An entry that is present afterwards is the new one or was there before.
    was :
        (key' p : ℕ)
        → HasKey entries' key' p
        → ((q ≡ p) × (key ≡ key')) ⊎ ((q ≢ p) × HasKey t.entries key' p)
    was key' p (state, own) = elim (Bool-cases (q == p)) [
      | inl same ↦
          let e : q ≡ p = (==_iff q p).0 same in
          inl (e, sym (ap (λ x. x.key) at_self) ∙ ap (λ i. (at_place entries' i).key) e ∙ own)
      | inr differs ↦
          let ne : q ≢ p = apart q p differs in
          inr (
            ne,
            (
              sym (ap (λ x. x.state) (at_other p ne)) ∙ state,
              sym (ap (λ x. x.key) (at_other p ne)) ∙ own,
            ),
          )
    ]
      where
        apart : (a b : ℕ) → (a == b) ≡ false → a ≢ b
        apart a b h p = ground arith

    unique' : (key' p r : ℕ) → HasKey entries' key' p → HasKey entries' key' r → p ≡ r
    unique' key' p r hp hr = elim (was key' p hp) [
      | inl (e, same) ↦ elim (was key' r hr) [
        | inl (f, _) ↦ sym e ∙ f
        | inr (ne, old) ↦ absurd (ne (sym (owner key q r found (rw same old))))
      ]
      | inr (ne, old) ↦ elim (was key' r hr) [
        | inl (f, same) ↦ absurd (ne (sym (owner key q p found (rw same old))))
        | inr (_, old_r) ↦ wf.unique key' p r old old_r
      ]
    ]

    full' :
        (i : ℕ)
        → (at_place t.entries i).state ≢ entry_empty
        → (at_place entries' i).state ≢ entry_empty
    full' i h p = elim (Bool-cases (q == i)) [
      | inl same ↦ vacant (
          sym (ap (λ x. x.state) at_self)
          ∙ ap (λ i. (at_place entries' i).state) ((==_iff q i).0 same)
          ∙ p)
      | inr differs ↦ h (sym (ap (λ x. x.state) (at_other i (λ e. apart q i differs e))) ∙ p)
    ]
      where
        vacant : entry_value_present ≢ entry_empty
        vacant p = ground arith

        apart : (a b : ℕ) → (a == b) ≡ false → a ≢ b
        apart a b h p = ground arith

    reached' : (key' p : ℕ) → HasKey entries' key' p → IsReached k entries' key' p
    reached' key' p h = elim (was key' p h) [
      | inl (e, same) ↦ rw⁻¹ e (rw⁻¹ same (keep key q reach))
      | inr (ne, old) ↦ keep key' p (wf.reached key' p old)
    ]
      where
        keep : (key p : ℕ) → IsReached k t.entries key p → IsReached k entries' key p
        keep key p (d, near, there, before) = (d, near, there, λ j l. full' _ (before j l))

    abbrev table' : U64HashTable
    table' = record t {
      entries = entries';
      size = if is_present (at_place t.entries q).state then t.size else t.size + 1;
    }

    wf' : IsWellFormed k table'
    wf' = record {
      capacity_eq = wf.capacity_eq;
      length_eq = length-set t.entries q (present_entry key v) ∙ wf.length_eq;
      unique = unique';
      reached = reached';
      counted = λ z. absurd (filled (at_place t.entries q).state refl z);
    }
      where
        filled :
            (s : EntryState)
            → (at_place t.entries q).state ≡ s
            → (if is_present s then t.size else t.size + 1) ≢ 0
        filled entry_value_present p z = wf.counted z (at_place t.entries q).key q (p, refl)
        filled entry_empty p z = absurd (omega (arith, z))
        filled entry_tombstone p z = absurd (omega (arith, z))

    put-table' : put_entry t key v ≡ some (is_present (at_place t.entries q).state, table')
    unfolding put_entry
    put-table' =
        rw (found_at key q found, get_elem?-get_or t.entries q nothing (reached-lt key q reach))
          refl

    -- A key that was there and is another one is found where it was.
    other_key : (key' p : ℕ) → key ≢ key' → HasKey t.entries key' p → q ≢ p
    other_key key' p ne has e = elim kind [
      | inl own ↦ ne (sym own.1 ∙ ap (λ i. (at_place t.entries i).key) e ∙ has.1)
      | inr free ↦ free (ap (λ i. (at_place t.entries i).state) e ∙ has.0)
    ]

-- A key whose entries are the same in two tables is read alike.
get-same :
    (k : ℕ) (t u : U64HashTable) (wf : IsWellFormed k t) (wf' : IsWellFormed k u) (key e e' : ℕ)
    → ((p : ℕ) → HasKey t.entries key p → at_place u.entries p ≡ at_place t.entries p)
    → ((p : ℕ) → HasKey u.entries key p → HasKey t.entries key p)
    → e < 2 ^ k
    → (at_place t.entries e).state ≡ entry_empty
    → e' < 2 ^ k
    → (at_place u.entries e').state ≡ entry_empty
    → get_u64_hash_table u key ≡ get_u64_hash_table t key
get-same k t u wf wf' key e e' kept only h p h' p' =
    let (r, at_r, reach_r, kind_r) = find-Ends k t.entries wf.length_eq key e h p in
    let (q, at_q, reach_q, kind_q) = find-Ends k u.entries wf'.length_eq key e' h' p' in
    elim kind_r [
      | inl has ↦
          get-HasKey k u wf' key r
            (ap (λ x. x.state) (kept r has) ∙ has.0, ap (λ x. x.key) (kept r has) ∙ has.1)
          ∙ ap (λ x. some x.value) (kept r has)
          ∙ sym (get-HasKey k t wf key r has)
      | inr free ↦ elim kind_q [
        | inl has ↦ absurd (
            free (
              ap (λ i. (at_place t.entries i).state) (sym (owner k t wf key r q at_r (only q has)))
              ∙ (only q has).0))
        | inr free_q ↦
            get-absent k u wf' key q at_q reach_q free_q
            ∙ sym (get-absent k t wf key r at_r reach_r free)
      ]
    ]

-- In a well-formed table with two empty entries a key can be put at the place that the search for it gives.
-- The table stays well-formed; the key then has the new value, and every other key the value it had.
pub get-put_entry :
    (k : ℕ) (t : U64HashTable) (key v e₁ e₂ : ℕ)
    → IsWellFormed k t
    → e₁ ≢ e₂
    → e₁ < 2 ^ k
    → e₂ < 2 ^ k
    → (at_place t.entries e₁).state ≡ entry_empty
    → (at_place t.entries e₂).state ≡ entry_empty
    → (u : Bool × U64HashTable) × (put_entry t key v ≡ some u)
      × IsWellFormed k u.1
      × ((key' : ℕ)
          → get_u64_hash_table u.1 key'
            ≡ (if key == key' then some v else get_u64_hash_table t key'))
get-put_entry k t key v e₁ e₂ wf ne h₁ h₂ p₁ p₂ =
    let (q, found, reach, kind) = find-Ends k t.entries wf.length_eq key e₁ h₁ p₁ in
    let u : U64HashTable = table' k t wf key v q found reach kind in
    let wf_u : IsWellFormed k u = wf' k t wf key v q found reach kind in
    (
      (is_present (at_place t.entries q).state, u),
      put-table' k t wf key v q found reach kind,
      wf_u,
      λ key'. elim (Bool-cases (key == key')) [
        | inl same ↦ rw same (
            ap (get_u64_hash_table u) (sym ((==_iff key key').0 same))
            ∙ get-HasKey k u wf_u key q (
              ap (λ x. x.state) (at_self k t wf key v q found reach kind),
              ap (λ x. x.key) (at_self k t wf key v q found reach kind),
            )
            ∙ ap (λ x. some x.value) (at_self k t wf key v q found reach kind))
        | inr differs ↦
            let other : key ≢ key' = apart key key' differs in
            let (e, h, p) = spared q (at_other k t wf key v q found reach kind) in
            rw differs (
              get-same k t u wf wf_u key' e₁ e
                (λ p has.
                  at_other k t wf key v q found reach kind p
                    (other_key k t wf key v q found reach kind key' p other has))
                (λ p has. elim (was k t wf key v q found reach kind key' p has) [
                  | inl (_, same) ↦ absurd (other same)
                  | inr (_, old) ↦ old
                ])
                h₁ p₁ h p)
      ],
    )
  where
    apart : (a b : ℕ) → (a == b) ≡ false → a ≢ b
    apart a b h p = ground arith

    spared :
        (q : ℕ)
        → ((p : ℕ)
            → q ≢ p
            → at_place (set t.entries q (present_entry key v)) p ≡ at_place t.entries p)
        → (e : ℕ) × (e < 2 ^ k)
          × ((at_place (set t.entries q (present_entry key v)) e).state ≡ entry_empty)
    spared q other = elim (Bool-cases (q == e₁)) [
      | inl same ↦
          let e : q ≡ e₁ = (==_iff q e₁).0 same in
          (e₂, h₂, ap (λ x. x.state) (other e₂ (λ f. ne (sym e ∙ f))) ∙ p₂)
      | inr differs ↦ (e₁, h₁, ap (λ x. x.state) (other e₁ (apart q e₁ differs)) ∙ p₁)
    ]
