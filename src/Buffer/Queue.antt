-- ===== src/Buffer/Queue.antt =====
-- A byte queue: what a buffer promises to the callers of buffer.c while there is memory.
use sillyweb.Base.{
  ℕ, ◌+◌, ◌^◌, ◌<◌, ◌≤◌, ◌≡◌, refl, ap, ◌∙◌, inl, inr, true, Option, none, some, List, [], ◌∷◌,
  ◌++◌, length, drop, arith, take_all, length-drop, Bytes,
}
use sillyweb.Memory.{Allocator, IsAmple}
use sillyweb.Buffer.{Buffer, append_buffer, clear_buffer, ltrim_buffer}
use sillyweb.Buffer.Content.{
  content, IsValid, length-content, append_buffer-AppendsTo, ltrim_buffer-Trims,
}

pub data Call : Type 0 where
  append : Bytes → Call
  ltrim : ℕ → Call
  clear : Call

-- A sequence of calls on one buffer, each append with the length of its bytes.
unfoldable pub run : Allocator → Buffer → List Call → Option Buffer
run mem b [] = some b
run mem b (append bytes ∷ calls) = elim (append_buffer mem b bytes (length bytes)) [
  | none ↦ none
  | some (b', _) ↦ run mem b' calls
]
run mem b (ltrim n ∷ calls) = elim (ltrim_buffer mem b n) [
  | none ↦ none
  | some b' ↦ run mem b' calls
]
run mem b (clear ∷ calls) = run mem (clear_buffer b) calls

-- The same calls on a plain list.
unfoldable pub queue : Bytes → List Call → Bytes
queue held [] = held
queue held (append bytes ∷ calls) = queue (held ++ bytes) calls
queue held (ltrim n ∷ calls) = queue (drop n held) calls
queue held (clear ∷ calls) = queue [] calls

-- How many bytes the calls append altogether.
abbrev pub appended : List Call → ℕ
appended [] = 0
appended (append bytes ∷ calls) = length bytes + appended calls
appended (_ ∷ calls) = appended calls

module _ (mem : Allocator) (ample : IsAmple mem) where
  pub append_step :
      (b : Buffer) (bytes : Bytes)
      → IsValid b
      → b.len + length bytes < 2 ^ 32
      → (b' : Buffer) × (append_buffer mem b bytes (length bytes) ≡ some (b', true))
        × IsValid b'
        × (content b' ≡ content b ++ bytes)
        × (b'.len ≡ b.len + length bytes)
  append_step b bytes v fits =
      let ((b', done), e, a) =
        append_buffer-AppendsTo mem b bytes (length bytes) v (omega arith) fits in
      elim a [
        | inl (y, valid, held, len') ↦ (
          b',
          e ∙ ap (λ d. some (b', d)) y,
          valid,
          held ∙ ap (λ t. content b ++ t) (take_all _ bytes (omega arith)),
          len',
        )
        | inr (n, gone, size, lost) ↦ absurd (ample.realloc_ample _ _ lost)
      ]

  ltrim_step :
      (b : Buffer) (n : ℕ)
      → IsValid b
      → (b' : Buffer) × (ltrim_buffer mem b n ≡ some b')
        × IsValid b'
        × (content b' ≡ drop n (content b))
        × (b'.len ≤ b.len)
  ltrim_step b n v =
      let (b', e, t) = ltrim_buffer-Trims mem b n v in
      elim t [
        | inl (valid, held) ↦ (
          b',
          e,
          valid,
          held,
          omega (
            arith,
            length-content b v,
            length-content b' valid,
            ap length held,
            length-drop n (content b),
          ),
        )
        | inr (_, _, _, (q, lost)) ↦ absurd (ample.realloc_ample q b'.len lost)
      ]

  -- While there is memory, and as long as fewer than 2 ^ 32 bytes are appended, any sequence of
  -- calls of `append_buffer`, `ltrim_buffer` and `clear_buffer` on a valid buffer stays within its
  -- blocks, leaves a valid buffer, and does to its bytes what the same calls do to a plain list.
  pub run-queue :
      (b : Buffer) (calls : List Call)
      → IsValid b
      → b.len + appended calls < 2 ^ 32
      → (r : Buffer) × (run mem b calls ≡ some r)
        × IsValid r
        × (content r ≡ queue (content b) calls)
  unfolding run queue clear_buffer
  run-queue b [] v h = (b, refl, v, refl)
  run-queue b (append bytes ∷ calls) v h =
      let (b', e, valid, held, size) = append_step b bytes v (omega arith) in
      let (r, e', valid', held') = run-queue b' calls valid (omega arith) in
      (r, rw (e, run) e', valid', held' ∙ ap (λ t. queue t calls) held)
  run-queue b (ltrim n ∷ calls) v h =
      let (b', e, valid, held, size) = ltrim_step b n v in
      let (r, e', valid', held') = run-queue b' calls valid (omega arith) in
      (r, rw (e, run) e', valid', held' ∙ ap (λ t. queue t calls) held)
  run-queue b (clear ∷ calls) v h =
      run-queue (clear_buffer b) calls (record { sized = refl; fits = omega arith }) (omega arith)
