-- ===== src/Percent/Agree.antt =====
-- The two decoders, of buffer.c and of percent.c.
use sillyweb.Base.{
  ℕ, zero, suc, ◌≤◌, ◌≡◌, refl, ap, true, Option, some, [], ◌∷◌, ◌++◌, leb, ◌==◌, length, drop,
  drop_all, take-append, length-append, length-drop, Bytes, c_str, IsText, arith, inl, inr,
  Bool-cases,
}
use sillyweb.Memory.{block}
use sillyweb.Buffer.{Buffer}
use sillyweb.Buffer.Content.{content, IsValid, length-content}
use sillyweb.Percent.{Scan-cases, scan_hex, decode, percent_decode}
use sillyweb.Percent.Decode.{length-decode}
use sillyweb.Percent.Buffers.{decode_from, overwrite, percent_decode_buffer}

c_str-append : (s t : Bytes) → IsText s → c_str t ≡ [] → c_str (s ++ t) ≡ s
unfolding c_str
c_str-append [] t h e = e
c_str-append (zero ∷ s) t h e = absurd (omega (arith, h.0))
c_str-append (suc c ∷ s) t h e = ap (◌∷◌ (suc c)) (c_str-append s t h.1 e)

-- On a text with a NUL behind it the loops write the same.
decode_from-decode :
    (behind : Bytes) (t skip : ℕ) (text : Bytes)
    → c_str behind ≡ []
    → IsText text
    → decode_from behind t skip text ≡ decode t skip text
unfolding decode decode_from
decode_from-decode behind t skip [] e h = refl
decode_from-decode behind t (suc skip) (c ∷ cs) e h = decode_from-decode behind t skip cs e h.1
decode_from-decode behind t zero (c ∷ cs) e h =
    let seen : c_str (cs ++ behind) ≡ cs = c_str-append cs behind h.1 e in
    let skipped = decode_from-decode behind t 0 cs e h.1 in
    elim (Bool-cases (c == b'%')) [
      | inr plain ↦ rw (decode, decode_from, plain) (ap (◌∷◌ c) skipped)
      | inl percent ↦ elim (Bool-cases (leb 2 (length (c ∷ cs)))) [
        | inr short ↦ rw (decode, decode_from, percent, short) skipped
        | inl room ↦ elim (Scan-cases (scan_hex cs)) [
          | inl (v, m) ↦
              rw (decode, decode_from, percent, room, seen, m)
                (ap (◌∷◌ v) (decode_from-decode behind v 2 cs e h.1))
          | inr (inl m) ↦ rw (decode, decode_from, percent, room, seen, m) skipped
          | inr (inr m) ↦
              rw (decode, decode_from, percent, room, seen, m)
                (ap (◌∷◌ t) (decode_from-decode behind t 2 cs e h.1))
        ]
      ]
    ]

overwrite-content :
    (s : Bytes) (p : Option Bytes)
    → length s ≤ length (block p)
    → (b : Buffer) × (overwrite s p ≡ some b)
      × (content b ≡ s)
      × (length (block b.buffer) ≡ length (block p))
unfolding overwrite
overwrite-content [] p h = (record { buffer = p; len = 0 }, refl, refl, refl)
overwrite-content (c ∷ cs) p h =
    let s : Bytes = c ∷ cs in
    let rest = drop (length s) (block p) in
    let fits : leb (length s) (length (block p)) ≡ true = ground (arith, h) in
    (
      record { buffer = some (s ++ rest); len = length s },
      rw fits refl,
      take-append s rest,
      omega (arith, h, length-append s rest, length-drop (length s) (block p)),
    )

-- On an input that is a text with a NUL behind its block, and an output with a block at least as
-- large, `percent_decode_buffer` writes within the block what `percent_decode` writes for this
-- text, sets the length to it, and leaves the block its size.
pub percent_decode_buffer-percent_decode :
    (behind : Bytes) (t : ℕ) (inbuffer outbuffer : Buffer)
    → IsValid inbuffer
    → c_str behind ≡ []
    → IsText (content inbuffer)
    → inbuffer.len ≤ length (block outbuffer.buffer)
    → (b : Buffer) × (percent_decode_buffer behind t inbuffer outbuffer ≡ some b)
      × (content b ≡ percent_decode t (content inbuffer))
      × (length (block b.buffer) ≡ length (block outbuffer.buffer))
unfolding percent_decode_buffer percent_decode
percent_decode_buffer-percent_decode behind t inbuffer outbuffer v e h room =
    let text = content inbuffer in
    let inside : leb inbuffer.len (length (block inbuffer.buffer)) ≡ true =
      ground (arith, v.sized) in
    let none_left : drop inbuffer.len (block inbuffer.buffer) ≡ [] =
      drop_all inbuffer.len (block inbuffer.buffer) (omega (arith, v.sized)) in
    let same : decode_from (drop inbuffer.len (block inbuffer.buffer) ++ behind) t 0 text
        ≡ decode t 0 text =
      rw none_left (decode_from-decode behind t 0 text e h) in
    let (b, done, c, size) =
      overwrite-content (decode t 0 text) outbuffer.buffer
        (omega (arith, room, length-decode t 0 text, length-content inbuffer v)) in
    (b, rw (percent_decode_buffer, inside, same) done, c, size)
