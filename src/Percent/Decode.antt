-- ===== src/Percent/Decode.antt =====
-- What `percent_decode` recovers, and how much it writes.
use sillyweb.Base.{
  ℕ, zero, suc, ◌≤◌, ◌<◌, ◌≡◌, refl, ap, ◌∙◌, Bool, true, false, ◌&&◌, ◌∷◌, [], ◌++◌, length, All,
  arith, leb, ◌==◌, ==_iff, inl, inr, Bytes, Bool-cases, ◌/◌, ◌%◌,
}
use sillyweb.Percent.{
  Scan, Scan-cases, matched, mismatch, eof, scan_hex, hex_byte, hex_char, percent_format, decode,
  percent_decode,
}

pub length-decode : (t skip : ℕ) (text : Bytes) → length (decode t skip text) ≤ length text
unfolding decode
length-decode t skip [] = omega arith
length-decode t (suc skip) (c ∷ cs) = omega (arith, length-decode t skip cs)
length-decode t zero (c ∷ cs) = elim (Bool-cases (c == b'%')) [
  | inr plain ↦ rw (decode, plain) (omega (arith, length-decode t 0 cs))
  | inl percent ↦ elim (Bool-cases (leb 2 (length (c ∷ cs)))) [
    | inr short ↦ rw (decode, percent, short) (omega (arith, length-decode t 0 cs))
    | inl room ↦ elim (Scan-cases (scan_hex cs)) [
      | inl (v, m) ↦ rw (decode, percent, room, m) (omega (arith, length-decode v 2 cs))
      | inr (inl m) ↦ rw (decode, percent, room, m) (omega (arith, length-decode t 0 cs))
      | inr (inr m) ↦ rw (decode, percent, room, m) (omega (arith, length-decode t 2 cs))
    ]
  ]
]

-- The text that the loops of the encoders build, with no regard to the size of the block.
abbrev pub percent_encoded : Bytes → Bytes
percent_encoded [] = []
percent_encoded (c ∷ cs) = percent_format c ++ percent_encoded cs

-- A test of all bytes up to `top`, from the top down.
passes : (ℕ → Bool) → ℕ → Bool
passes test zero = test 0
passes test (suc top) = test (suc top) && passes test top

passes_at : (test : ℕ → Bool) (top c : ℕ) → c ≤ top → passes test top ≡ true → test c ≡ true
unfolding passes
passes_at test zero c le e = rw (c_zero c le) e
  where
    c_zero : (d : ℕ) → d ≤ 0 → d ≡ 0
    c_zero d h = omega arith
passes_at test (suc top) c le e = ground (arith, passes_at test top c)

is_match : ℕ → Scan → Bool
is_match c (matched v) = v == c
is_match c _ = false

is_match_sound : (c : ℕ) (s : Scan) → is_match c s ≡ true → s ≡ matched c
unfolding is_match
is_match_sound c (matched v) h = ap matched ((==_iff v c).0 h)
is_match_sound c mismatch h = cc
is_match_sound c eof h = cc

-- Whatever follows, two digits are read back as the byte that they print.
scan_table : (rest : Bytes) → passes (λ c. is_match c (scan_hex (hex_byte c ++ rest))) 127 ≡ true
unfolding passes is_match scan_hex hex_byte
scan_table rest = refl

abbrev pub IsAscii : ℕ → Type 0
IsAscii c = c < 128

pub hex_byte_ascii : (c : ℕ) → IsAscii c → hex_byte c ≡ hex_char (c / 16) ∷ hex_char (c % 16) ∷ []
unfolding hex_byte
hex_byte_ascii c h = ground arith

decode-matched :
    (t a b v : ℕ) (rest : Bytes)
    → scan_hex (a ∷ b ∷ rest) ≡ matched v
    → decode t 0 (b'%' ∷ a ∷ b ∷ rest) ≡ v ∷ decode v 0 rest
unfolding decode
decode-matched t a b v rest m =
    let room : leb 2 (suc (suc (suc (length rest)))) ≡ true = ground arith in rw (decode, room, m)

decode-percent_format :
    (t c : ℕ) (rest : Bytes)
    → IsAscii c
    → decode t 0 (percent_format c ++ rest) ≡ c ∷ decode c 0 rest
decode-percent_format t c rest h =
    let scanned : scan_hex (hex_byte c ++ rest) ≡ matched c =
      is_match_sound c _ (passes_at _ 127 c (omega arith) (scan_table rest)) in
    let two : hex_byte c ≡ hex_char (c / 16) ∷ hex_char (c % 16) ∷ [] = hex_byte_ascii c h in
    rw two (decode-matched t _ _ c rest (rw two at scanned))

-- `percent_decode` reads back the formats of ASCII bytes.
pub percent_decode-percent_encoded :
    (t : ℕ) (text : Bytes) → All IsAscii text → percent_decode t (percent_encoded text) ≡ text
unfolding percent_decode
percent_decode-percent_encoded t [] h = unfold decode in refl
percent_decode-percent_encoded t (c ∷ cs) h =
    decode-percent_format t c (percent_encoded cs) h.0
    ∙ ap (◌∷◌ c) (percent_decode-percent_encoded c cs h.1)

-- `percent_decode` writes no more bytes than it reads, so `out` may be as short as `in`.
length-percent_decode : (t : ℕ) (text : Bytes) → length (percent_decode t text) ≤ length text
unfolding percent_decode
length-percent_decode t text = length-decode t 0 text
