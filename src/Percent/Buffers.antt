-- ===== src/Percent/Buffers.antt =====
-- buffer.c: `percent_decode_buffer` and `percent_encode_buffer`, which nothing calls, for two
-- buffers that do not share memory. `none` is an access outside a block.
use sillyweb.Base.{
  ℕ, zero, suc, ◌+◌, true, false, Option, none, some, [], ◌∷◌, ◌++◌, leb, ltb, ◌==◌, length, take,
  drop, if◌then◌else◌, Bytes, c_str,
}
use sillyweb.Memory.{block}
use sillyweb.Buffer.{Buffer}
use sillyweb.Percent.{
  matched, mismatch, eof, scan_hex, Encoded, no_memory, overrun, encoded, encode_onto,
  percent_format,
}

-- The bytes that the loop of `percent_decode_buffer` writes, from `inbuffer->buffer[i]` on:
-- `sscanf` reads on into what is behind the block, up to a NUL.
unfoldable pub decode_from : Bytes → ℕ → ℕ → Bytes → Bytes
decode_from behind t skip [] = []
decode_from behind t (suc skip) (c ∷ cs) = decode_from behind t skip cs
decode_from behind t zero (c ∷ cs) = elim (c == b'%') [
  | true ↦ elim (leb 2 (length (c ∷ cs))) [
    | true ↦ elim (scan_hex (c_str (cs ++ behind))) [
      | matched v ↦ v ∷ decode_from behind v 2 cs
      | eof ↦ t ∷ decode_from behind t 2 cs
      | mismatch ↦ decode_from behind t 0 cs
    ]
    | false ↦ decode_from behind t 0 cs
  ]
  | false ↦ c ∷ decode_from behind t 0 cs
]

-- The block with a text written to its start, if it fits.
unfoldable pub overwrite : Bytes → Option Bytes → Option Buffer
overwrite [] p = some (record { buffer = p; len = 0 })
overwrite (c ∷ cs) p =
    if leb (length (c ∷ cs)) (length (block p))
    then some (record {
      buffer = some ((c ∷ cs) ++ drop (length (c ∷ cs)) (block p));
      len = length (c ∷ cs);
    })
    else none

-- `t` is not initialised. The result of the function is 1.
unfoldable pub percent_decode_buffer : Bytes → ℕ → Buffer → Buffer → Option Buffer
unfolding decode_from overwrite
percent_decode_buffer behind t inbuffer outbuffer =
    if leb inbuffer.len (length (block inbuffer.buffer))
    then overwrite
        (decode_from (drop inbuffer.len (block inbuffer.buffer) ++ behind) t 0
          (take inbuffer.len (block inbuffer.buffer)))
        outbuffer.buffer
    else none

-- What `strcat` has left in the block of a string; `len` is not changed.
unfoldable pub encoded_in : Buffer → Encoded → Option Buffer
encoded_in b no_memory = none
encoded_in b overrun = none
encoded_in b (encoded s) =
    some (record b { buffer = some (s ++ 0 ∷ drop (length s + 1) (block b.buffer)) })

-- The block of the output must hold a string; with no input it is not looked at. The result of the
-- function is 0.
unfoldable pub percent_encode_buffer : Buffer → Buffer → Option Buffer
unfolding encoded_in encode_onto
percent_encode_buffer inbuffer outbuffer =
    if inbuffer.len == 0
    then some outbuffer
    else if leb inbuffer.len (length (block inbuffer.buffer))
    then (let held = c_str (block outbuffer.buffer) in
        if ltb (length held) (length (block outbuffer.buffer))
        then encoded_in outbuffer (
            encode_onto percent_format (length (block outbuffer.buffer)) held
              (take inbuffer.len (block inbuffer.buffer)))
        else none)
    else none
