-- ===== src/Compiler/Chunk.antt =====
-- src/compiler/bytecode/chunk/chunk.c: the code of a function while it is written. The memory of `code` is
-- a list of `capacity` bytes, and that of `lines`, which is allocated and copied but never used, its size
-- in bytes. `none` is a failed assertion or an access outside of an allocation.
pub mod Writes
pub mod Iterator
pub mod Walk
use lox_vm.Prelude.{
  ℕ, zero, suc, ◌+◌, ◌-◌, ◌*◌, ◌/◌, ◌%◌, ◌^◌, List, [], ◌∷◌, ◌++◌, Option, none, some, ◌>>=◌, Bool,
  leb, ltb, if◌then◌else◌, length, set, replicate, take, get_elem?,
}

pub record Chunk : Type 0 where
  pub constants : List ℕ
  pub code : List ℕ
  pub capacity : ℕ
  pub in_use : ℕ
  pub lines : Option ℕ

pub record ChunkBytecodeContext : Type 0 where
  pub code : List ℕ
  pub in_use : ℕ
  pub capacity : ℕ

unfoldable pub init_chunk : Chunk
init_chunk = record { constants = []; code = []; capacity = 0; in_use = 0; lines = none }

-- `GROW_CAPACITY`
unfoldable pub grow_capacity : ℕ → ℕ
grow_capacity capacity = if ltb capacity 8 then 8 else capacity * 2

-- `GROW_ARRAY` of `lines`: eight bytes are allocated for each that is asked for, and as many copied as
-- the old capacity says.
unfoldable pub grow_lines : Option ℕ → ℕ → ℕ → Option ℕ
grow_lines none old_count new_count = some (8 * (4 * new_count))
grow_lines (some size) old_count new_count =
    if leb (4 * old_count) size then some (8 * (4 * new_count)) else none

unfoldable pub grow_chunk_capacity_if_neccessary : Chunk → ℕ → Option Chunk
unfolding grow_capacity grow_lines
grow_chunk_capacity_if_neccessary chunk new_capacity =
    if ltb chunk.capacity new_capacity
    then (grow_lines chunk.lines chunk.capacity (grow_capacity chunk.capacity) >>= λ lines.
        some (record chunk {
          capacity = grow_capacity chunk.capacity;
          code = chunk.code ++ replicate (grow_capacity chunk.capacity - chunk.capacity) 0;
          lines = some lines;
        }))
    else some chunk

-- `code[index] = byte`
unfoldable pub write_byte_at : List ℕ → ℕ → ℕ → Option (List ℕ)
write_byte_at code index byte =
    if ltb index (length code) then some (set code index (byte % 256)) else none

unfoldable pub write_chunk : Chunk → ℕ → Option Chunk
unfolding grow_chunk_capacity_if_neccessary write_byte_at
write_chunk chunk byte = grow_chunk_capacity_if_neccessary chunk (chunk.in_use + 1) >>= λ c.
    write_byte_at c.code c.in_use byte >>= λ code.
    some (record c { code = code; in_use = c.in_use + 1 })

-- `write_u16_le` stores the two bytes of the value, the lower first.
unfoldable pub write_u16_chunk : Chunk → ℕ → Option Chunk
unfolding grow_chunk_capacity_if_neccessary write_byte_at
write_u16_chunk chunk value = grow_chunk_capacity_if_neccessary chunk (chunk.in_use + 2) >>= λ c.
    write_byte_at c.code c.in_use value >>= λ low.
    write_byte_at low (c.in_use + 1) (value / 2 ^ 8) >>= λ code.
    some (record c { code = code; in_use = c.in_use + 2 })

unfoldable pub add_constant_to_chunk : Chunk → ℕ → Option (ℕ × Chunk)
add_constant_to_chunk chunk constant =
    if ltb (length chunk.constants) 255
    then (let constants = chunk.constants ++ constant ∷ [] in
        some ((length constants - 1) % 2 ^ 8, record chunk { constants = constants }))
    else none

unfoldable pub context : Chunk → ChunkBytecodeContext
context chunk = record { code = chunk.code; in_use = chunk.in_use; capacity = chunk.capacity }

unfoldable pub chunk_start_new_context : Chunk → ChunkBytecodeContext × Chunk
unfolding context
chunk_start_new_context chunk =
    (context chunk, record chunk { code = []; in_use = 0; capacity = 0; lines = none })

unfoldable pub chunk_restore_context : Chunk → ChunkBytecodeContext → ChunkBytecodeContext × Chunk
unfolding context
chunk_restore_context chunk prev = (
  context chunk,
  record chunk { code = prev.code; in_use = prev.in_use; capacity = prev.capacity },
)

-- The loop over the bytes of a context.
unfoldable pub write_bytes : List ℕ → Chunk → Option Chunk
unfolding write_chunk
write_bytes [] chunk = some chunk
write_bytes (b ∷ bs) chunk = write_chunk chunk b >>= write_bytes bs

unfoldable pub chunk_write_context : Chunk → ChunkBytecodeContext → Option Chunk
unfolding write_bytes
chunk_write_context chunk prev = write_bytes (take prev.in_use prev.code) chunk
