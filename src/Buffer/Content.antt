-- ===== src/Buffer/Content.antt =====
-- What the operations of buffer.c do to the bytes that a buffer holds.
use sillyweb.Base.{
  ℕ, ◌+◌, ◌-◌, ◌%◌, ◌^◌, ◌≤◌, ◌<◌, ◌≡◌, refl, sym, ap, ◌∙◌, ◌⊎◌, inl, inr, Bool, true, false,
  Option, none, some, ◌++◌, length, take, drop, arith, length-append, length-take, length-drop,
  take_all, take-nil, leb, Bytes, Bool-cases, zero_or_positive, drop_all,
}
use sillyweb.Memory.{Allocator, block, memcpy_end, memmove_lem}
use sillyweb.Buffer.{Buffer, append_buffer, clear_buffer, ltrim_buffer, append_to, ltrim_to}

-- The bytes that the buffer holds.
abbrev pub content : Buffer → Bytes
content b = take b.len (block b.buffer)

-- The block has exactly the bytes that `len` counts, and `len` is an `unsigned int`.
pub record IsValid (b : Buffer) : Type 0 where
  pub sized : length (block b.buffer) ≡ b.len
  pub fits : b.len < 2 ^ 32

pub length-content : (b : Buffer) → IsValid b → length (content b) ≡ b.len
length-content b v = omega (arith, length-take b.len (block b.buffer))

module _ (mem : Allocator) (b : Buffer) (appenddata : Bytes) (n : ℕ) where
  -- What a caller of `append_buffer` may find: the bytes added, or a block lost for want of memory.
  abbrev pub AppendsTo : Buffer × Bool → Type 0
  AppendsTo r =
      ((r.1 ≡ true)
        × IsValid r.0
        × (content r.0 ≡ content b ++ take n appenddata)
        × (r.0.len ≡ b.len + n))
      ⊎ ((r.1 ≡ false)
          × (r.0.buffer ≡ none)
          × (r.0.len ≡ b.len)
          × (mem.realloc b.buffer (b.len + n) ≡ none))

  append_to-AppendsTo :
      (p : Option Bytes)
      → mem.realloc b.buffer (b.len + n) ≡ p
      → IsValid b
      → n ≤ length appenddata
      → b.len + n < 2 ^ 32
      → (r : Buffer × Bool) × (append_to p b.len appenddata n ≡ some r) × AppendsTo r
  unfolding append_to
  append_to-AppendsTo none e v h k =
      ((record { buffer = none; len = b.len }, false), refl, inr (refl, refl, refl, e))
  append_to-AppendsTo (some c) e v h k =
      let size : length c ≡ b.len + n = mem.realloc_size b.buffer (b.len + n) c e in
      let kept : take b.len c ≡ content b =
        mem.realloc_keeps b.buffer (b.len + n) c b.len e (omega arith) (omega arith) in
      let whole : length (take b.len c ++ take n appenddata) ≡ b.len + n = omega (
        arith,
        length-append (take b.len c) (take n appenddata),
        length-take b.len c,
        length-take n appenddata,
      ) in
      let small : (b.len + n) % 2 ^ 32 ≡ b.len + n = omega arith in
      (
        (
          record { buffer = some (take b.len c ++ take n appenddata); len = (b.len + n) % 2 ^ 32 },
          true,
        ),
        rw (memcpy_end c b.len appenddata n size h, append_to),
        inl (
          refl,
          record { sized = omega arith; fits = omega arith },
          rw small (
              take_all (b.len + n) _ (omega arith)
              ∙ ap (λ (t : Bytes). t ++ take n appenddata) kept),
          small,
        ),
      )

  -- On a valid buffer, with at least `appenddatalen` bytes behind `appenddata` and a sum of the
  -- lengths below 2 ^ 32, `append_buffer` stays within its blocks. It returns 1 and has added the
  -- first `appenddatalen` bytes, or it returns 0 and has lost the block while `len` is unchanged.
  pub append_buffer-AppendsTo :
      IsValid b
      → n ≤ length appenddata
      → b.len + n < 2 ^ 32
      → (r : Buffer × Bool) × (append_buffer mem b appenddata n ≡ some r) × AppendsTo r
  unfolding append_buffer
  append_buffer-AppendsTo v h k =
      let small : (b.len + n) % 2 ^ 64 ≡ b.len + n = omega arith in
      rw small (append_to-AppendsTo _ refl v h k)

-- What `ltrim_buffer` leaves: a buffer without its first bytes, or, for want of memory, no block
-- and the length of what should be left.
abbrev pub Trims : Allocator → Buffer → ℕ → Buffer → Type 0
Trims mem b n r =
    (IsValid r × (content r ≡ drop n (content b)))
    ⊎ ((r.buffer ≡ none)
        × (0 < r.len)
        × (r.len + n ≡ b.len)
        × ((q : Option Bytes) × (mem.realloc q r.len ≡ none)))

module _ (mem : Allocator) where
  -- after `memmove`: the block `q` has the bytes that are left in front
  shrink-Trims :
      (b : Buffer) (len' n : ℕ) (q p : Option Bytes)
      → mem.realloc q len' ≡ p
      → IsValid b
      → len' + n ≡ b.len
      → take len' (block q) ≡ drop n (content b)
      → len' ≤ length (block q)
      → Trims mem b n (record { buffer = p; len = len' })
  shrink-Trims b len' n q none e v l m k = elim (zero_or_positive len') [
    | inl z ↦ inl (record { sized = omega arith; fits = omega arith }, take-nil len' ∙ rw z at m)
    | inr h ↦ inr (refl, h, l, (q, e))
  ]
  shrink-Trims b len' n q (some c) e v l m k = inl (
    record { sized = mem.realloc_size q len' c e; fits = omega arith },
    mem.realloc_keeps q len' c len' e (omega arith) k ∙ m,
  )

  -- On a valid buffer `ltrim_buffer` stays within its block. What it leaves is a valid buffer
  -- without the first `trimlen` bytes (none, if there were not that many), unless `realloc` fails
  -- to shrink the block: then the bytes that should be left are lost, and `len` still counts them.
  pub ltrim_buffer-Trims :
      (b : Buffer) (n : ℕ)
      → IsValid b
      → (r : Buffer) × (ltrim_buffer mem b n ≡ some r) × Trims mem b n r
  unfolding ltrim_buffer
  ltrim_buffer-Trims b n v = elim (Bool-cases (leb n b.len)) [
    | inl le ↦
        let len' = b.len - n in
        let whole : content b ≡ block b.buffer = take_all b.len (block b.buffer) (omega arith) in
        let (q, moved, front, size) = memmove_lem b.buffer n len' (ground arith) in
        let rest : take len' (drop n (block b.buffer)) ≡ drop n (block b.buffer) =
          take_all len' _ (omega (arith, length-drop n (block b.buffer))) in
        (
          record { buffer = mem.realloc q len'; len = len' },
          rw (le, ltrim_to, moved),
          shrink-Trims b len' n q _ refl v (ground arith) (rw whole (front ∙ rest)) (omega arith),
        )
    | inr gt ↦ (
      clear_buffer b,
      rw gt,
      inl (
        record { sized = refl; fits = omega arith },
        sym (drop_all n (content b) (ground (arith, length-take b.len (block b.buffer)))),
      ),
    )
  ]
