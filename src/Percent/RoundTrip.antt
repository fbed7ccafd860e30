-- ===== src/Percent/RoundTrip.antt =====
-- buffer.c: what `percent_encode_buffer` leaves for `percent_decode`.
use mathlib.Core.Path.{subst}
use sillyweb.Base.{
  ℕ, ◌+◌, ◌*◌, ◌≤◌, ◌<◌, ◌≡◌, refl, ap, sym, ◌∙◌, true, some, ◌∷◌, [], ◌++◌, length, length-append,
  drop, leb, ltb, ◌==◌, ◌/◌, ◌%◌, All, arith, Bytes, IsText, c_str, append-nil, append_assoc,
  if_true, zero, suc, ==_iff, Bool-cases, if_false, length-drop, ◌&&◌, inl, inr,
}
use sillyweb.Memory.{block}
use sillyweb.Buffer.{Buffer}
use sillyweb.Buffer.Content.{content, IsValid, length-content}
use sillyweb.Percent.{hex_char, percent_format, encoded, encode_onto, percent_decode}
use sillyweb.Percent.Decode.{
  IsAscii, hex_byte_ascii, percent_encoded, percent_decode-percent_encoded,
}
use sillyweb.Percent.Buffers.{percent_encode_buffer, encoded_in}

percent_format_ascii :
    (c : ℕ) → IsAscii c → percent_format c ≡ b'%' ∷ hex_char (c / 16) ∷ hex_char (c % 16) ∷ []
percent_format_ascii c h = ap (◌∷◌ b'%') (hex_byte_ascii c h)

length-percent_format : (c : ℕ) → IsAscii c → length (percent_format c) ≡ 3
length-percent_format c h = ap length (percent_format_ascii c h)

length-percent_encoded :
    (text : Bytes) → All IsAscii text → length (percent_encoded text) ≡ 3 * length text
length-percent_encoded [] h = refl
length-percent_encoded (c ∷ cs) h = omega (
  arith,
  length-append (percent_format c) (percent_encoded cs),
  length-percent_format c h.0,
  length-percent_encoded cs h.1,
)

-- The characters are positive: 48 is the code of the digit 0.
hex_char_positive : (d : ℕ) → 1 ≤ hex_char d
hex_char_positive d = ground arith

percent_format-IsText :
    (c : ℕ) (rest : Bytes) → IsAscii c → IsText rest → IsText (percent_format c ++ rest)
percent_format-IsText c rest h k =
    subst IsText (sym (ap (λ s. s ++ rest) (percent_format_ascii c h)))
      (omega arith, (hex_char_positive (c / 16), (hex_char_positive (c % 16), k)))

percent_encoded-IsText : (text : Bytes) → All IsAscii text → IsText (percent_encoded text)
percent_encoded-IsText [] h = h
percent_encoded-IsText (c ∷ cs) h =
    percent_format-IsText c (percent_encoded cs) h.0 (percent_encoded-IsText cs h.1)

-- With room for three bytes of each byte and the NUL, the loop adds what it should.
encode_onto-encoded :
    (size : ℕ) (held text : Bytes)
    → All IsAscii text
    → length held + 3 * length text < size
    → encode_onto percent_format size held text ≡ encoded (held ++ percent_encoded text)
unfolding encode_onto
encode_onto-encoded size held [] h room = ap encoded (sym (append-nil held))
encode_onto-encoded size held (c ∷ cs) h room =
    let three : length (percent_format c) ≡ 3 = length-percent_format c h.0 in
    let fits : (leb (length (percent_format c) + 1) 10
          && leb (length (held ++ percent_format c) + 1) size)
        ≡ true =
      ground (arith, three, length-append held (percent_format c)) in
    let rest =
      encode_onto-encoded size (held ++ percent_format c) cs h.1
        (omega (arith, three, length-append held (percent_format c))) in
    if_true _ _ fits ∙ rest ∙ ap encoded (append_assoc held (percent_format c) (percent_encoded cs))

-- A string ends at its NUL.
c_str-terminated : (s rest : Bytes) → IsText s → c_str (s ++ 0 ∷ rest) ≡ s
unfolding c_str
c_str-terminated [] rest h = refl
c_str-terminated (zero ∷ cs) rest h = absurd (omega arith)
c_str-terminated (suc c ∷ cs) rest h = ap (◌∷◌ (suc c)) (c_str-terminated cs rest h.1)

length_zero : (s : Bytes) → length s ≡ 0 → s ≡ []
length_zero [] h = refl
length_zero (c ∷ cs) h = absurd (omega arith)

leb_size : (b : Buffer) → IsValid b → leb b.len (length (block b.buffer)) ≡ true
leb_size b v = let sized = v.sized in ground arith

-- For a valid input buffer that holds ASCII bytes only and an output buffer whose block holds the
-- empty string and has more than three bytes for each byte of the input: `percent_encode_buffer`
-- stays within the blocks, changes neither the size of the output's block nor its `len`, and
-- decoding the string that it leaves there gives back the bytes of the input.
pub percent_decode-percent_encode_buffer :
    (t : ℕ) (inbuffer outbuffer : Buffer)
    → IsValid inbuffer
    → All IsAscii (content inbuffer)
    → c_str (block outbuffer.buffer) ≡ []
    → 3 * inbuffer.len < length (block outbuffer.buffer)
    → (b : Buffer) × (percent_encode_buffer inbuffer outbuffer ≡ some b)
      × (length (block b.buffer) ≡ length (block outbuffer.buffer))
      × (b.len ≡ outbuffer.len)
      × (percent_decode t (c_str (block b.buffer)) ≡ content inbuffer)
unfolding percent_encode_buffer encoded_in
percent_decode-percent_encode_buffer t inbuffer outbuffer v ascii empty room =
    let text = content inbuffer in
    let size = length (block outbuffer.buffer) in
    let s = percent_encoded text in
    let held_fits : ltb (length (c_str (block outbuffer.buffer))) size ≡ true =
      ground (arith, ap length empty) in
    let long : length s ≡ 3 * inbuffer.len =
      omega (arith, length-percent_encoded text ascii, length-content inbuffer v) in
    elim (Bool-cases (inbuffer.len == 0)) [
      | inl none_left ↦ (
        outbuffer,
        if_true _ _ none_left,
        refl,
        refl,
        ap (percent_decode t) (
              empty
              ∙ sym (
                  ap percent_encoded (
                    length_zero text
                      (length-content inbuffer v ∙ (==_iff inbuffer.len 0).0 none_left))))
            ∙ percent_decode-percent_encoded t text ascii,
      )
      | inr some_left ↦ (
        record outbuffer { buffer = some (s ++ 0 ∷ drop (length s + 1) (block outbuffer.buffer)) },
        if_false _ _ some_left
            ∙ if_true _ _ (leb_size inbuffer v)
            ∙ if_true _ _ held_fits
            ∙ ap (encoded_in outbuffer) (
                ap (λ held. encode_onto percent_format size held text) empty
                ∙ encode_onto-encoded size [] text ascii
                    (omega (arith, length-content inbuffer v))),
        omega (
          arith,
          length-append s (0 ∷ drop (length s + 1) (block outbuffer.buffer)),
          length-drop (length s + 1) (block outbuffer.buffer),
        ),
        refl,
        ap (percent_decode t) (c_str-terminated s _ (percent_encoded-IsText text ascii))
            ∙ percent_decode-percent_encoded t text ascii,
      )
    ]
