-- ===== src/Buffer.antt =====
-- buffer.c: a growing byte buffer. `none` for a result is an access outside a block.
pub mod Content
pub mod Queue
use sillyweb.Base.{
  ℕ, ◌+◌, ◌-◌, ◌%◌, ◌^◌, Bool, true, false, Option, none, some, leb, if◌then◌else◌, Bytes,
}
use sillyweb.Memory.{Allocator, memcpy, memmove}

-- `buffer_t`; its field `fd` is never read or written.
pub record Buffer : Type 0 where
  pub buffer : Option Bytes
  pub len : ℕ

-- `sizeof(buffer_t)` on a 64-bit target
abbrev sizeof_buffer : ℕ
sizeof_buffer = 16

unfoldable pub new_buffer : Allocator → Option Buffer
new_buffer mem = if mem.calloc sizeof_buffer then some (record { buffer = none; len = 0 }) else none

-- `append` on the block that `realloc` returned; the sum is stored as an `unsigned int`.
append_to : Option Bytes → ℕ → Bytes → ℕ → Option (Buffer × Bool)
append_to none len appenddata n = some (record { buffer = none; len = len }, false)
append_to (some b) len appenddata n = elim (memcpy b len appenddata n) [
  | none ↦ none
  | some b' ↦ some (record { buffer = some b'; len = (len + n) % 2 ^ 32 }, true)
]

-- `appenddatalen` is a `size_t`, and so is the size that is asked for.
unfoldable pub append_buffer : Allocator → Buffer → Bytes → ℕ → Option (Buffer × Bool)
unfolding append_to
append_buffer mem b appenddata appenddatalen =
    append_to (mem.realloc b.buffer ((b.len + appenddatalen) % 2 ^ 64)) b.len appenddata
      appenddatalen

unfoldable pub clear_buffer : Buffer → Buffer
clear_buffer b = record b { buffer = none; len = 0 }

unfoldable pub free_buffer : Buffer → Buffer
unfolding clear_buffer
free_buffer b = clear_buffer b

-- `memmove` keeps the new length, which `realloc` then makes the size of the block.
ltrim_to : Allocator → Buffer → ℕ → Option Buffer
ltrim_to mem b trimlen =
    let len' = b.len - trimlen in
    elim (memmove b.buffer trimlen len') [
      | none ↦ none
      | some p ↦ some (record { buffer = mem.realloc p len'; len = len' })
    ]

-- `trimlen` is a `size_t`.
unfoldable pub ltrim_buffer : Allocator → Buffer → ℕ → Option Buffer
unfolding ltrim_to clear_buffer
ltrim_buffer mem b trimlen =
    if leb trimlen b.len then ltrim_to mem b trimlen else some (clear_buffer b)
