-- ===== src/Compiler/Chunk/Walk.antt =====
-- The loop over the instructions of a chunk, as `create_bytecode_list` of
-- src/compiler/bytecode/bytecode_list.c begins it, and what its reads return.
use lox_vm.Prelude.{
  ℕ, zero, suc, ◌+◌, ◌-◌, ◌*◌, ◌<◌, ◌≡◌, refl, ap, sym, ◌∙◌, List, [], ◌∷◌, ◌++◌, append_assoc,
  Option, none, some, ◌>>=◌, Bool, true, false, ◌==◌, leb, get_elem?, length, length-append, arith,
  Bool-cases, inl, inr,
}
use lox_vm.Shared.Bytecode.{
  Bytecode, op_constant, op_eof, opcode, to_bytecode, get_size_bytecode_instruction,
}
use lox_vm.Shared.Bytecode.Codes.{to_bytecode-opcode, get_size-pos}
use lox_vm.Compiler.Chunk.{Chunk}
use lox_vm.Compiler.Chunk.Iterator.{
  ChunkIterator, iterate_chunk, at_pc, behind_pc, next_instruction_chunk_iterator,
  has_next_chunk_iterator, current_instruction_index_chunk_iterator, read_u8_chunk_iterator,
  read_u8_chunk_iterator_at, read_u16_chunk_iterator,
}

-- The places and the instructions that the loop meets, in at most so many rounds.
unfoldable pub visit : ℕ → ChunkIterator → Option (List (ℕ × Bytecode))
unfolding has_next_chunk_iterator next_instruction_chunk_iterator
    current_instruction_index_chunk_iterator
visit zero it = none
visit (suc fuel) it = has_next_chunk_iterator it >>= λ next. elim next.0 [
  | true ↦ next_instruction_chunk_iterator next.1 >>= λ r.
      visit fuel r.1 >>= λ rest. some ((current_instruction_index_chunk_iterator r.1, r.0) ∷ rest)
  | false ↦ some []
]

-- An instruction with as many bytes behind it as the table says. The last of a chunk is another.
pub record Instruction : Type 0 where
  pub op : Bytecode
  pub operands : List ℕ
  pub sized : suc (length operands) ≡ get_size_bytecode_instruction op
  pub not_last : (opcode op == opcode op_eof) ≡ false

abbrev pub encode : List Instruction → List ℕ
encode [] = opcode op_eof ∷ []
encode (x ∷ xs) = opcode x.op ∷ (x.operands ++ encode xs)

abbrev pub places : ℕ → List Instruction → List (ℕ × Bytecode)
places i [] = (i, op_eof) ∷ []
places i (x ∷ xs) = (i, x.op) ∷ places (i + get_size_bytecode_instruction x.op) xs

get_elem?-length :
    (xs : List ℕ) (y : ℕ) (ys : List ℕ) → get_elem? (xs ++ y ∷ ys) (length xs) ≡ some y
get_elem?-length [] y ys = refl
get_elem?-length (x ∷ xs) y ys = get_elem?-length xs y ys

-- the iterator at a place, before an instruction
abbrev pub at : Chunk → ℕ → Bytecode → Bool → ChunkIterator
at c p l eof = record { iterating = c; pc = p; last_instruction = l; eof_already_hitted = eof }

module _ (c : Chunk) (before : List ℕ) (l : Bytecode) where
  reads :
      (byte : ℕ) (after : List ℕ)
      → c.code ≡ before ++ byte ∷ after
      → get_elem? c.code (length before) ≡ some byte
  reads byte after h =
      ap (λ code. get_elem? code (length before)) h ∙ get_elem?-length before byte after

  next-at :
      (op : Bytecode) (after : List ℕ) (eof : Bool)
      → c.code ≡ before ++ opcode op ∷ after
      → next_instruction_chunk_iterator (at c (length before) l eof)
        ≡ some (op, at c (length before + get_size_bytecode_instruction op) op eof)
  unfolding next_instruction_chunk_iterator at_pc
  next-at op after eof h =
      let size = get_size_bytecode_instruction op in
      let moved : length before + 1 + (size - 1) ≡ length before + size =
        omega (arith, get_size-pos op) in
      rw (reads (opcode op) after h, ◌>>=◌, to_bytecode-opcode op, moved) refl

index-at :
    (c : Chunk) (p : ℕ) (op : Bytecode) (eof : Bool)
    → current_instruction_index_chunk_iterator (at c (p + get_size_bytecode_instruction op) op eof)
      ≡ p
unfolding current_instruction_index_chunk_iterator
index-at c p op eof = omega arith

has_next-at :
    (c : Chunk) (before : List ℕ) (l op : Bytecode) (after : List ℕ)
    → c.code ≡ before ++ opcode op ∷ after
    → has_next_chunk_iterator (at c (length before) l false)
      ≡ some (true, at c (length before) l (opcode op == opcode op_eof))
unfolding has_next_chunk_iterator at_pc
has_next-at c before l op after h =
    rw (reads c before l (opcode op) after h, ◌>>=◌)
      (elim (Bool-cases (opcode op == opcode op_eof)) [ inl e ↦ rw e refl | inr e ↦ rw e refl ])

visit-places :
    (prog : List Instruction) (c : Chunk) (before after : List ℕ) (l : Bytecode)
    → c.code ≡ before ++ (encode prog ++ after)
    → visit (suc (suc (length prog))) (at c (length before) l false)
      ≡ some (places (length before) prog)
unfolding visit to_bytecode get_size_bytecode_instruction opcode
visit-places [] c before after l h =
    rw
      (
        has_next-at c before l op_eof after h,
        ◌>>=◌,
        next-at c before l op_eof after true h,
        index-at c (length before) op_eof true,
      )
      refl
visit-places (x ∷ xs) c before after l h =
    let size = get_size_bytecode_instruction x.op in
    let here : c.code ≡ before ++ opcode x.op ∷ (x.operands ++ (encode xs ++ after)) =
      h ∙ ap (λ code. before ++ opcode x.op ∷ code) (append_assoc x.operands (encode xs) after) in
    let next : c.code ≡ (before ++ opcode x.op ∷ x.operands) ++ (encode xs ++ after) =
      here ∙ sym (append_assoc before (opcode x.op ∷ x.operands) (encode xs ++ after)) in
    let behind : length (before ++ opcode x.op ∷ x.operands) ≡ length before + size =
      length-append before (opcode x.op ∷ x.operands) ∙ omega (arith, x.sized) in
    let rest =
      rw behind at (visit-places xs c (before ++ opcode x.op ∷ x.operands) after x.op next) in
    rw
      (
        has_next-at c before l x.op (x.operands ++ (encode xs ++ after)) here,
        ◌>>=◌,
        x.not_last,
        next-at c before l x.op (x.operands ++ (encode xs ++ after)) false here,
        rest,
        index-at c (length before) x.op false,
      )
      refl

-- The loop over a chunk that holds a program and its last instruction, `op_eof`, meets each instruction
-- once, in order and at the index of its first byte, and ends, whatever the operands and the bytes
-- behind the program are.
pub visit-encode :
    (prog : List Instruction) (c : Chunk) (after : List ℕ)
    → c.code ≡ encode prog ++ after
    → visit (suc (suc (length prog))) (iterate_chunk c) ≡ some (places 0 prog)
unfolding iterate_chunk
visit-encode prog c after h = visit-places prog c [] after op_constant h

get_elem?-append : (xs ys : List ℕ) (i : ℕ) → get_elem? (xs ++ ys) (length xs + i) ≡ get_elem? ys i
get_elem?-append [] ys i = ap (get_elem? ys) (omega arith)
get_elem?-append (x ∷ xs) ys i =
    let e : length (x ∷ xs) + i ≡ suc (length xs + i) = omega arith in
    ap (get_elem? (x ∷ (xs ++ ys))) e ∙ get_elem?-append xs ys i

get_elem?-append_lt :
    (xs ys : List ℕ) (i : ℕ) → i < length xs → get_elem? (xs ++ ys) i ≡ get_elem? xs i
get_elem?-append_lt [] ys i h = absurd (omega arith)
get_elem?-append_lt (x ∷ xs) ys zero h = refl
get_elem?-append_lt (x ∷ xs) ys (suc i) h = get_elem?-append_lt xs ys i (omega arith)

-- When the iterator has returned an instruction, `read_u8_chunk_iterator_at` reads its operands by their
-- number, `read_u8_chunk_iterator` the last one and `read_u16_chunk_iterator` two of them as a number,
-- the lower byte first.
pub next_instruction-reads :
    (x : Instruction) (c : Chunk) (before after : List ℕ) (l : Bytecode) (eof : Bool)
    → c.code ≡ before ++ opcode x.op ∷ (x.operands ++ after)
    → let it = at c (length before + get_size_bytecode_instruction x.op) x.op eof in
      (next_instruction_chunk_iterator (at c (length before) l eof) ≡ some (x.op, it))
      × ((k : ℕ) → k < length x.operands → read_u8_chunk_iterator_at it k ≡ get_elem? x.operands k)
      × (0 < length x.operands
          → read_u8_chunk_iterator it ≡ get_elem? x.operands (length x.operands - 1))
      × ((low high : ℕ)
          → x.operands ≡ low ∷ high ∷ []
          → read_u16_chunk_iterator it ≡ some (low + 256 * high))
unfolding read_u8_chunk_iterator_at read_u8_chunk_iterator read_u16_chunk_iterator at_pc behind_pc
next_instruction-reads x c before after l eof h =
    let size = get_size_bytecode_instruction x.op in
    let operand = λ (k : ℕ) (p : k < length x.operands).
      let e : length before + (k + 1) ≡ length before + suc k = omega arith in
      ap (λ code. get_elem? code (length before + (k + 1))) h
      ∙ ap (get_elem? (before ++ opcode x.op ∷ (x.operands ++ after))) e
      ∙ get_elem?-append before (opcode x.op ∷ (x.operands ++ after)) (suc k)
      ∙ get_elem?-append_lt x.operands after k p in
    (
      next-at c before l x.op (x.operands ++ after) eof h,
      λ k p.
          let e : length before + k + 1 ≡ length before + (k + 1) = omega arith in
          rw (index-at c (length before) x.op eof, e) (operand k p),
      λ p.
          let m = length x.operands - 1 in
          let e : length before + size - 1 ≡ length before + (m + 1) = omega (arith, x.sized) in
          let b : leb 1 (length before + size) ≡ true = ground (arith, x.sized) in
          rw (b, e) (operand m (omega arith)),
      λ low high s.
          let two : length x.operands ≡ 2 = ap length s in
          let e : length before + size - 2 ≡ length before + (0 + 1) = omega (arith, x.sized) in
          let e' : length before + size - 1 ≡ length before + (1 + 1) = omega (arith, x.sized) in
          let b : leb 1 (length before + size) ≡ true = ground (arith, x.sized) in
          let b' : leb 2 (length before + size) ≡ true = ground (arith, x.sized) in
          let first = operand 0 (omega arith) ∙ ap (λ xs. get_elem? xs 0) s in
          let second = operand 1 (omega arith) ∙ ap (λ xs. get_elem? xs 1) s in
          rw (b, b', e, e', first, second) refl,
    )
