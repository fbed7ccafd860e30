-- ===== src/Percent/Encode.antt =====
-- The encoders of percent.c write behind the end of their block.
use sillyweb.Base.{
  ℕ, ◌+◌, ◌*◌, ◌≤◌, ◌≡◌, true, ◌∷◌, [], ◌++◌, length, length-append, arith, Bytes, if_eq,
}
use sillyweb.Percent.{
  overrun, encode_onto, encode_with, percent_encode, html_encode, hex_byte, percent_format,
  html_format,
}

-- Each byte takes at least `k` bytes, and the block has `k` for each and none for the NUL.
encode_onto-overrun :
    (format : ℕ → Bytes) (k : ℕ)
    → ((c : ℕ) → k ≤ length (format c))
    → (size : ℕ) (held : Bytes) (c : ℕ) (cs : Bytes) → size ≤ length held + k * length (c ∷ cs)
    → encode_onto format size held (c ∷ cs) ≡ overrun
unfolding encode_onto
encode_onto-overrun format k long size held c [] h =
    ground (arith, long c, length-append held (format c))
encode_onto-overrun format k long size held c (d ∷ cs) h = if_eq _ _ _ (
    encode_onto-overrun format k long size (held ++ format c) d cs
      (omega (arith, long c, length-append held (format c))))

encode_with-overrun :
    (format : ℕ → Bytes) (k : ℕ)
    → ((c : ℕ) → k ≤ length (format c))
    → (text : Bytes) → encode_with format true (length text * k) text ≡ overrun
unfolding encode_with
encode_with-overrun format k long [] = ground arith
encode_with-overrun format k long (c ∷ cs) =
    if_eq _ _ _ (encode_onto-overrun format k long (length (c ∷ cs) * k) [] c cs (grind arith))

length-hex_byte : (c : ℕ) → 2 ≤ length (hex_byte c)
unfolding hex_byte
length-hex_byte c = ground arith

-- Whatever text `percent_encode` is given, if it gets its block it writes behind the end of it.
percent_encode-overrun : (text : Bytes) → percent_encode true text ≡ overrun
unfolding percent_encode
percent_encode-overrun text =
    encode_with-overrun percent_format 3 (λ c. omega (arith, length-hex_byte c)) text

-- Whatever text `html_encode` is given, if it gets its block it writes behind the end of it.
html_encode-overrun : (text : Bytes) → html_encode true text ≡ overrun
unfolding html_encode
html_encode-overrun text =
    encode_with-overrun html_format 4 (λ c. omega (arith, length-hex_byte c)) text
