-- ===== src/Memory.antt =====
-- The C library's allocator, which is not part of the repository, and the copies within a block.
-- A block is the list of its bytes.
use mathlib.Core.Option
use sillyweb.Base.{
  ℕ, ◌+◌, ◌≤◌, ◌≡◌, ◌≢◌, Bool, true, ◌&&◌, Option, none, some, [], ◌++◌, length, take, drop, leb,
  if◌then◌else◌, Bytes, arith, refl, drop_all, length-append, length-take, length-drop,
  take-append_of_length, drop-nil, ap, sym, append-nil,
}

-- The bytes behind a pointer; NULL points to none.
abbrev pub block : Option Bytes → Bytes
block none = []
block (some b) = b

-- `realloc b n` is the new block, or NULL; `calloc n` and `malloc n` say whether n bytes were
-- to be had.
-- The laws are what the C standard says of `realloc`: the new block has the size that was asked
-- for, and starts with the bytes of the old one.
pub record Allocator : Type 0 where
  pub realloc : Option Bytes → ℕ → Option Bytes
  pub calloc : ℕ → Bool
  pub malloc : ℕ → Bool
  pub realloc_size : (p : Option Bytes) (n : ℕ) (b : Bytes) → realloc p n ≡ some b → length b ≡ n
  pub realloc_keeps :
      (p : Option Bytes) (n : ℕ) (b : Bytes) (k : ℕ)
      → realloc p n ≡ some b
      → k ≤ n
      → k ≤ length (block p)
      → take k b ≡ take k (block p)

-- There is always memory, for a block of no bytes too.
pub record IsAmple (mem : Allocator) : Type 0 where
  pub realloc_ample : (p : Option Bytes) (n : ℕ) → mem.realloc p n ≢ none
  pub calloc_ample : (n : ℕ) → mem.calloc n ≡ true
  pub malloc_ample : (n : ℕ) → mem.malloc n ≡ true

-- `memcpy(dst + at, src, n)`; `none` is an access outside one of the blocks.
unfoldable pub memcpy : Bytes → ℕ → Bytes → ℕ → Option Bytes
memcpy dst at src n =
    if leb (at + n) (length dst) && leb n (length src)
    then some (take at dst ++ (take n src ++ drop (at + n) dst))
    else none

-- `memmove(p, p + from, n)`; `none` is an access outside the block.
unfoldable pub memmove : Option Bytes → ℕ → ℕ → Option (Option Bytes)
memmove p from n =
    if leb (from + n) (length (block p))
    then some (Option.map (λ b. take n (drop from b) ++ drop n b) p)
    else none

-- A copy that fills a block up to its end.
pub memcpy_end :
    (dst : Bytes) (at : ℕ) (src : Bytes) (n : ℕ)
    → length dst ≡ at + n
    → n ≤ length src
    → memcpy dst at src n ≡ some (take at dst ++ take n src)
unfolding memcpy
memcpy_end dst at src n h k =
    ground (arith, drop_all (at + n) dst (omega arith), append-nil (take n src))

-- `memmove` leaves a block of the same size, or none, that starts with the bytes moved.
pub memmove_lem :
    (p : Option Bytes) (from n : ℕ)
    → from + n ≤ length (block p)
    → (q : Option Bytes) × (memmove p from n ≡ some q)
      × (take n (block q) ≡ take n (drop from (block p)))
      × (length (block q) ≡ length (block p))
unfolding memmove
memmove_lem none from n h = (none, ground arith, ap (take n) (sym (drop-nil from)), refl)
memmove_lem (some b) from n h = (
  some (take n (drop from b) ++ drop n b),
  ground arith,
  take-append_of_length n (take n (drop from b)) (drop n b)
      (omega (arith, length-take n (drop from b), length-drop from b)),
  omega (
    arith,
    length-append (take n (drop from b)) (drop n b),
    length-take n (drop from b),
    length-drop from b,
    length-drop n b,
  ),
)
