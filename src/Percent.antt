-- ===== src/Percent.antt =====
-- percent.c: percent decoding and encoding of C strings, and the `sscanf("%02x")` that it calls.
pub mod Decode
pub mod Encode
pub mod InPlace
pub mod Buffers
pub mod Agree
pub mod RoundTrip
use sillyweb.Base.{
  ℕ, zero, suc, ◌+◌, ◌-◌, ◌*◌, ◌%◌, ◌/◌, Bool, true, false, ◌&&◌, ◌||◌, Option, none, some, [], ◌∷◌,
  ◌++◌, leb, ltb, ◌==◌, length, drop, get_or, set, ◌≡◌, refl, ◌⊎◌, inl, inr, if◌then◌else◌, Bytes,
  is_space,
}

-- The value of a hexadecimal digit.
unfoldable pub hex_digit : ℕ → Option ℕ
hex_digit c =
    if leb b'0' c && leb c b'9'
    then some (c - b'0')
    else if leb b'a' c && leb c b'f'
    then some (c - b'a' + 10)
    else if leb b'A' c && leb c b'F'
    then some (c - b'A' + 10)
    else none

-- What `sscanf` makes of the directive: a value (modulo 2 ^ 8, as it is stored in a `char`), a
-- result of 0, or `EOF`, which is negative and so passes for a success.
pub data Scan : Type 0 where
  matched : ℕ → Scan
  mismatch : Scan
  eof : Scan

pub Scan-cases : (s : Scan) → ((v : ℕ) × (s ≡ matched v)) ⊎ (s ≡ mismatch) ⊎ (s ≡ eof)
Scan-cases (matched v) = inl (v, refl)
Scan-cases mismatch = inr (inl refl)
Scan-cases eof = inr (inr refl)

-- The second of two digits, if it is one.
scan_second : ℕ → Bytes → Scan
scan_second v [] = matched v
scan_second v (c ∷ cs) = elim (hex_digit c) [ none ↦ matched v | some d ↦ matched (v * 16 + d) ]

-- The one character that is left of the width after a sign; unsigned negation modulo 2 ^ 8.
scan_signed : Bool → Bytes → Scan
scan_signed negative [] = eof
scan_signed negative (c ∷ cs) = elim (hex_digit c) [
  | none ↦ mismatch
  | some d ↦ matched (if negative then (256 - d) % 256 else d)
]

-- "0x" fills the width and is a prefix only.
scan_digits : Bytes → Scan
scan_digits [] = eof
scan_digits (c ∷ cs) =
    if c == b'+'
    then scan_signed false cs
    else if c == b'-'
    then scan_signed true cs
    else if c == b'0' && (get_or cs 0 0 == b'x' || get_or cs 0 0 == b'X')
    then mismatch
    else elim (hex_digit c) [ none ↦ mismatch | some d ↦ scan_second d cs ]

-- `sscanf(text, "%02x", &t)`: leading white space does not count for the width.
unfoldable pub scan_hex : Bytes → Scan
unfolding scan_digits scan_signed scan_second hex_digit is_space
scan_hex [] = eof
scan_hex (c ∷ cs) = let rest = scan_hex cs in if is_space c then rest else scan_digits (c ∷ cs)

-- The loop of `percent_decode` over the text from `in[i]` on. `skip` counts the rounds that an
-- `i += 2` leaves out, and `t` is the local variable, which `EOF` leaves as it was.
unfoldable pub decode : ℕ → ℕ → Bytes → Bytes
decode t skip [] = []
decode t (suc skip) (c ∷ cs) = decode t skip cs
decode t zero (c ∷ cs) = elim (c == b'%') [
  | true ↦ elim (leb 2 (length (c ∷ cs))) [
    | true ↦ elim (scan_hex cs) [
      | matched v ↦ v ∷ decode v 2 cs
      | eof ↦ t ∷ decode t 2 cs
      | mismatch ↦ decode t 0 cs
    ]
    | false ↦ decode t 0 cs
  ]
  | false ↦ c ∷ decode t 0 cs
]

-- `percent_decode(in, out)`: the bytes written to `out`; their number is what is returned. `t` is
-- uninitialised at first.
unfoldable pub percent_decode : ℕ → Bytes → Bytes
unfolding decode
percent_decode t text = decode t 0 text

-- The same loop where `out` is `in`: `ll - i` rounds are left, each reads `in[i]` and may write
-- `out[o]` of one array.
unfoldable pub decode_at : ℕ → ℕ → ℕ → ℕ → ℕ → ℕ → Bytes → Bytes × ℕ
decode_at ll zero i o t skip array = (array, o)
decode_at ll (suc rounds) i o t (suc skip) array = decode_at ll rounds (i + 1) o t skip array
decode_at ll (suc rounds) i o t zero array = elim (get_or array i 0 == b'%') [
  | true ↦ elim (leb (i + 2) ll) [
    | true ↦ elim (scan_hex (drop (i + 1) array)) [
      | matched v ↦ decode_at ll rounds (i + 1) (o + 1) v 2 (set array o v)
      | eof ↦ decode_at ll rounds (i + 1) (o + 1) t 2 (set array o t)
      | mismatch ↦ decode_at ll rounds (i + 1) o t 0 array
    ]
    | false ↦ decode_at ll rounds (i + 1) o t 0 array
  ]
  | false ↦ decode_at ll rounds (i + 1) (o + 1) t 0 (set array o (get_or array i 0))
]

-- `percent_decode(uri, uri)`, as `parse_request` calls it: the array after the call, and the
-- result.
unfoldable pub percent_decode_in_place : ℕ → Bytes → Bytes × ℕ
unfolding decode_at
percent_decode_in_place t text = decode_at (length text) (length text) 0 0 t 0 text

-- A digit of "%x".
abbrev pub hex_char : ℕ → ℕ
hex_char d = if ltb d 10 then b'0' + d else b'a' + (d - 10)

-- "%02x" of a `char`, which is signed: a byte from 128 on is extended to 32 bits.
unfoldable pub hex_byte : ℕ → Bytes
hex_byte c =
    let digits : Bytes = hex_char (c / 16) ∷ hex_char (c % 16) ∷ [] in
    if ltb c 128 then digits else b'f' ∷ b'f' ∷ b'f' ∷ b'f' ∷ b'f' ∷ b'f' ∷ digits

-- What an encoder returns: NULL, or the C string; `overrun` is a write behind the end of its block.
pub data Encoded : Type 0 where
  no_memory : Encoded
  overrun : Encoded
  encoded : Bytes → Encoded

-- The loop of an encoder: `sprintf` into `cbuff`, of ten bytes, and `strcat` to what the block of
-- `size` bytes holds, each with a NUL behind.
encode_onto : (ℕ → Bytes) → ℕ → Bytes → Bytes → Encoded
encode_onto format size held [] = encoded held
encode_onto format size held (c ∷ cs) =
    let rest = encode_onto format size (held ++ format c) cs in
    if leb (length (format c) + 1) 10 && leb (length (held ++ format c) + 1) size
    then rest
    else overrun

-- After `malloc(size)`: `outbuf[0] = 0`, and the loop.
encode_with : (ℕ → Bytes) → Bool → ℕ → Bytes → Encoded
encode_with format allocated size text =
    let looped = encode_onto format size [] text in
    if allocated then (if leb 1 size then looped else overrun) else no_memory

-- `sprintf(cbuff, "%%%02x", c)`
abbrev pub percent_format : ℕ → Bytes
percent_format c = b'%' ∷ hex_byte c

-- `sprintf(cbuff, "&#%02x", c)`
abbrev pub html_format : ℕ → Bytes
html_format c = b'&' ∷ b'#' ∷ hex_byte c

-- The flag says whether `malloc` returned a block.
unfoldable pub percent_encode : Bool → Bytes → Encoded
unfolding encode_with encode_onto hex_byte
percent_encode allocated text = encode_with percent_format allocated (length text * 3) text

unfoldable pub html_encode : Bool → Bytes → Encoded
unfolding encode_with encode_onto hex_byte
html_encode allocated text = encode_with html_format allocated (length text * 4) text
