-- ===== src/Compiler/Chunk/Writes.antt =====
-- What the writes of chunk.c leave in the code.
use lox_vm.Prelude.{
  ℕ, zero, suc, ◌+◌, ◌-◌, ◌*◌, ◌/◌, ◌%◌, ◌^◌, ◌≤◌, ◌<◌, ◌≡◌, refl, ap, sym, ◌∙◌, List, [], ◌∷◌,
  ◌++◌, append_assoc, append-nil, Option, none, some, ◌>>=◌, ltb, length, length-append,
  length-replicate, length-set, set, replicate, take, arith, Bool-cases, inl, inr, ◌⊎◌,
}
use lox_vm.Compiler.Chunk.{
  Chunk, ChunkBytecodeContext, grow_capacity, grow_lines, grow_chunk_capacity_if_neccessary,
  write_byte_at, write_chunk, write_u16_chunk, write_bytes, chunk_write_context,
}

-- The capacity is that of the memory, and the lines hold four bytes for each.
pub record IsChunk (c : Chunk) : Type 0 where
  pub memory : length c.code ≡ c.capacity
  pub used : c.in_use ≤ c.capacity
  pub grown : (c.capacity ≡ 0) ⊎ (8 ≤ c.capacity)
  pub covered : (size : ℕ) → c.lines ≡ some size → 4 * c.capacity ≤ size

-- the code that is written
abbrev pub written : Chunk → List ℕ
written c = take c.in_use c.code

-- A run that ends with the bytes appended.
pub record Writes (m : Option Chunk) (c : Chunk) (bytes : List ℕ) : Type 0 where
  pub result : Chunk
  pub ran : m ≡ some result
  pub valid : IsChunk result
  pub appended : written result ≡ written c ++ bytes
  pub constants : result.constants ≡ c.constants

-- Room for `n` more bytes.
record HasRoom (m : Option Chunk) (c : Chunk) (n : ℕ) : Type 0 where
  result : Chunk
  ran : m ≡ some result
  valid : IsChunk result
  same : written result ≡ written c
  same_in_use : result.in_use ≡ c.in_use
  constants : result.constants ≡ c.constants
  room : c.in_use + n ≤ result.capacity

some-injective : {a b : ℕ} → ◌≡◌ {A = Option ℕ} (some a) (some b) → a ≡ b
some-injective {a} e = ap (λ o. elim o [ none ↦ a | some b ↦ b ]) e

take-append : (n : ℕ) (xs ys : List ℕ) → n ≤ length xs → take n (xs ++ ys) ≡ take n xs
take-append zero xs ys h = refl
take-append (suc n) [] ys h = absurd (omega arith)
take-append (suc n) (x ∷ xs) ys h = ap (◌∷◌ x) (take-append n xs ys (omega arith))

take-suc-set :
    (n : ℕ) (xs : List ℕ) (v : ℕ) → n < length xs → take (suc n) (set xs n v) ≡ take n xs ++ v ∷ []
take-suc-set zero [] v h = absurd (omega arith)
take-suc-set zero (x ∷ xs) v h = refl
take-suc-set (suc n) [] v h = absurd (omega arith)
take-suc-set (suc n) (x ∷ xs) v h = ap (◌∷◌ x) (take-suc-set n xs v (omega arith))

-- one byte more
take-set :
    (n : ℕ) (xs : List ℕ) (v : ℕ) → n < length xs → take (n + 1) (set xs n v) ≡ take n xs ++ v ∷ []
take-set n xs v h =
    let e : n + 1 ≡ suc n = omega arith in ap (λ k. take k (set xs n v)) e ∙ take-suc-set n xs v h

grow_lines-total :
    (lines : Option ℕ) (old new : ℕ)
    → ((size : ℕ) → lines ≡ some size → 4 * old ≤ size)
    → grow_lines lines old new ≡ some (8 * (4 * new))
unfolding grow_lines
grow_lines-total none old new h = refl
grow_lines-total (some size) old new h = ground (arith, h size refl)

grow-HasRoom :
    (c : Chunk) (n : ℕ)
    → IsChunk c
    → n ≤ 8
    → HasRoom (grow_chunk_capacity_if_neccessary c (c.in_use + n)) c n
unfolding grow_chunk_capacity_if_neccessary grow_capacity
grow-HasRoom c n v small = elim (Bool-cases (ltb c.capacity (c.in_use + n))) [
  | inl e ↦
      let more : c.capacity + 8 ≤ grow_capacity c.capacity = elim v.grown [
        | inl z ↦ ground arith
        | inr z ↦ ground arith
      ] in
      let total = grow_lines-total c.lines c.capacity (grow_capacity c.capacity) v.covered in
      record {
        result = record c {
          capacity = grow_capacity c.capacity;
          code = c.code ++ replicate (grow_capacity c.capacity - c.capacity) 0;
          lines = some (8 * (4 * grow_capacity c.capacity));
        };
        ran = rw (e, total) refl;
        valid = record {
          memory =
              length-append c.code (replicate (grow_capacity c.capacity - c.capacity) 0)
              ∙ omega (
                arith,
                v.memory,
                more,
                length-replicate {A = ℕ} (grow_capacity c.capacity - c.capacity) 0,
              );
          used = omega (arith, v.used, more);
          grown = inr (omega (arith, more));
          covered = λ size k. omega (arith, some-injective k);
        };
        same = take-append c.in_use c.code _ (omega (arith, v.memory, v.used));
        same_in_use = refl;
        constants = refl;
        room = omega (arith, v.used, more);
      }
  | inr e ↦ record {
    result = c;
    ran = rw e refl;
    valid = v;
    same = refl;
    same_in_use = refl;
    constants = refl;
    room = ground arith;
  }
]

write_byte_at-total :
    (code : List ℕ) (index byte : ℕ)
    → index < length code
    → write_byte_at code index byte ≡ some (set code index (byte % 256))
unfolding write_byte_at
write_byte_at-total code index byte h = ground arith

-- A byte is appended, by a chunk of any size, which grows where it must.
pub write_chunk-Writes :
    (c : Chunk) (byte : ℕ) → IsChunk c → Writes (write_chunk c byte) c (byte % 256 ∷ [])
unfolding write_chunk
write_chunk-Writes c byte v =
    let r = grow-HasRoom c 1 v (omega arith) in
    let d = r.result in
    let inside : d.in_use < length d.code = omega (arith, r.valid.memory, r.room, r.same_in_use) in
    let stored = write_byte_at-total d.code d.in_use byte inside in
    record {
      result = record d { code = set d.code d.in_use (byte % 256); in_use = d.in_use + 1 };
      ran = rw (r.ran, ◌>>=◌, stored) refl;
      valid = record {
        memory = length-set d.code d.in_use (byte % 256) ∙ r.valid.memory;
        used = omega (arith, r.room, r.same_in_use);
        grown = r.valid.grown;
        covered = r.valid.covered;
      };
      appended =
          take-set d.in_use d.code (byte % 256) inside ∙ ap (λ xs. xs ++ byte % 256 ∷ []) r.same;
      constants = r.constants;
    }

-- The two bytes of a number are appended, the lower first.
pub write_u16_chunk-Writes :
    (c : Chunk) (value : ℕ)
    → IsChunk c
    → Writes (write_u16_chunk c value) c (value % 256 ∷ value / 2 ^ 8 % 256 ∷ [])
unfolding write_u16_chunk
write_u16_chunk-Writes c value v =
    let r = grow-HasRoom c 2 v (omega arith) in
    let d = r.result in
    let low = value % 256 in
    let high = value / 2 ^ 8 % 256 in
    let code = set d.code d.in_use low in
    let sized : length code ≡ d.capacity = length-set d.code d.in_use low ∙ r.valid.memory in
    let inside : d.in_use < length d.code = omega (arith, r.valid.memory, r.room, r.same_in_use) in
    let inside' : d.in_use + 1 < length code = omega (arith, sized, r.room, r.same_in_use) in
    let next : d.in_use + 2 ≡ d.in_use + 1 + 1 = omega arith in
    record {
      result = record d { code = set code (d.in_use + 1) high; in_use = d.in_use + 2 };
      ran =
          rw
            (
              r.ran,
              ◌>>=◌,
              write_byte_at-total d.code d.in_use value inside,
              write_byte_at-total code (d.in_use + 1) (value / 2 ^ 8) inside',
            )
            refl;
      valid = record {
        memory = length-set code (d.in_use + 1) high ∙ sized;
        used = omega (arith, r.room, r.same_in_use);
        grown = r.valid.grown;
        covered = r.valid.covered;
      };
      appended =
          ap (λ k. take k (set code (d.in_use + 1) high)) next
          ∙ take-set (d.in_use + 1) code high inside'
          ∙ ap (λ xs. xs ++ high ∷ []) (take-set d.in_use d.code low inside)
          ∙ append_assoc (take d.in_use d.code) (low ∷ []) (high ∷ [])
          ∙ ap (λ xs. xs ++ low ∷ high ∷ []) r.same;
      constants = r.constants;
    }

abbrev pub bytes_of : List ℕ → List ℕ
bytes_of [] = []
bytes_of (b ∷ bs) = b % 256 ∷ bytes_of bs

write_bytes-Writes :
    (bs : List ℕ) (c : Chunk) → IsChunk c → Writes (write_bytes bs c) c (bytes_of bs)
unfolding write_bytes
write_bytes-Writes [] c v = record {
  result = c;
  ran = refl;
  valid = v;
  appended = sym (append-nil (written c));
  constants = refl;
}
write_bytes-Writes (b ∷ bs) c v =
    let w = write_chunk-Writes c b v in
    let rest = write_bytes-Writes bs w.result w.valid in
    record {
      result = rest.result;
      ran = rw (w.ran, ◌>>=◌) rest.ran;
      valid = rest.valid;
      appended =
          rest.appended
          ∙ ap (λ xs. xs ++ bytes_of bs) w.appended
          ∙ append_assoc (written c) (b % 256 ∷ []) (bytes_of bs);
      constants = rest.constants ∙ w.constants;
    }

-- Every write is total on a well-formed chunk of any size, keeps it well-formed and appends to the code
-- just its bytes: `write_chunk` one, `write_u16_chunk` the two of a number and `chunk_write_context` all
-- those that a context holds.
pub chunk-Writes :
    (c : Chunk)
    → IsChunk c
    → ((byte : ℕ) → Writes (write_chunk c byte) c (byte % 256 ∷ []))
      × ((value : ℕ) → Writes (write_u16_chunk c value) c (value % 256 ∷ value / 2 ^ 8 % 256 ∷ []))
      × ((prev : ChunkBytecodeContext)
          → Writes (chunk_write_context c prev) c (bytes_of (take prev.in_use prev.code)))
unfolding chunk_write_context
chunk-Writes c v = (
  λ byte. write_chunk-Writes c byte v,
  λ value. write_u16_chunk-Writes c value v,
  λ prev. write_bytes-Writes (take prev.in_use prev.code) c v,
)
