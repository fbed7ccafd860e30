-- ===== src/Percent/InPlace.antt =====
-- Decoding a string in its own array gives what decoding into another array gives.
use sillyweb.Base.{
  ℕ, zero, suc, ◌+◌, ◌≤◌, ◌≡◌, refl, sym, ap, ◌∙◌, inl, inr, ◌∷◌, [], ◌++◌, length, take, drop, set,
  get_or, length-append, append_assoc, append-nil, take-append_le, arith, leb, ◌==◌, Bytes,
  Bool-cases,
}
use native.Mathlib.Numerals.{add-one}
use sillyweb.Percent.{
  Scan-cases, scan_hex, decode, decode_at, percent_decode, percent_decode_in_place,
}

-- The array while `in[i]` is `c`: what stands before it, and what comes behind.
get_or_split :
    (front : Bytes) (c : ℕ) (cs : Bytes) → get_or (front ++ (c ∷ cs)) (length front) 0 ≡ c
get_or_split [] c cs = refl
get_or_split (x ∷ front) c cs = get_or_split front c cs

drop_split :
    (front : Bytes) (c : ℕ) (cs : Bytes) → drop (suc (length front)) (front ++ (c ∷ cs)) ≡ cs
drop_split [] c cs = refl
drop_split (x ∷ front) c cs = drop_split front c cs

-- A write at or before `i` leaves what comes behind.
set_split :
    (front : Bytes) (o v c : ℕ) (cs : Bytes)
    → o ≤ length front
    → (front' : Bytes) × (set (front ++ (c ∷ cs)) o v ≡ front' ++ cs)
      × (length front' ≡ suc (length front))
      × (take (suc o) front' ≡ take o front ++ v ∷ [])
set_split [] zero v c cs h = (v ∷ [], refl, refl, refl)
set_split [] (suc o) v c cs h = absurd (omega arith)
set_split (x ∷ front) zero v c cs h = (
  v ∷ (front ++ c ∷ []),
  ap (◌∷◌ v) (sym (append_assoc front (c ∷ []) cs)),
  omega (arith, length-append front (c ∷ [])),
  refl,
)
set_split (x ∷ front) (suc o) v c cs h =
    let (front', e, l, t) = set_split front o v c cs (omega arith) in
    (x ∷ front', ap (◌∷◌ x) e, ap suc l, ap (◌∷◌ x) t)

-- The result of a loop that has written `pre` and appends `out` to it.
abbrev Writes : Bytes → ℕ → Bytes → Bytes × ℕ → Type 0
Writes pre o out r = (r.1 ≡ o + length out) × (take r.1 r.0 ≡ pre ++ out)

-- a round that writes nothing
Writes-keep :
    (front : Bytes) (o c : ℕ) (out : Bytes) (r : Bytes × ℕ)
    → o ≤ length front
    → Writes (take o (front ++ c ∷ [])) o out r
    → Writes (take o front) o out r
Writes-keep front o c out r h w = (w.0, rw (← take-append_le o front (c ∷ []) h) (w.1))

-- a round that writes `v`
Writes-put :
    (pre front' : Bytes) (o v : ℕ) (out : Bytes) (r : Bytes × ℕ)
    → take (suc o) front' ≡ pre ++ v ∷ []
    → Writes (take (o + 1) front') (o + 1) out r
    → Writes pre o (v ∷ out) r
Writes-put pre front' o v out r e w =
    (omega (arith, w.0), w.1 ∙ ap (λ p. p ++ out) (rw add-one e) ∙ append_assoc pre (v ∷ []) out)

decode_at-Writes :
    (ll : ℕ) (rest front : Bytes) (i o t skip : ℕ) (array : Bytes)
    → array ≡ front ++ rest
    → length front ≡ i
    → i + length rest ≡ ll
    → o ≤ i
    → Writes (take o front) o (decode t skip rest) (decode_at ll (length rest) i o t skip array)
unfolding decode decode_at
decode_at-Writes ll [] front i o t skip array a l e h =
    (omega arith, rw (a, append-nil) (sym (append-nil (take o front))))
decode_at-Writes ll (c ∷ cs) front i o t (suc skip) array a l e h =
    Writes-keep front o c _ _ (omega arith) (
      decode_at-Writes ll cs (front ++ c ∷ []) (i + 1) o t skip array
        (a ∙ sym (append_assoc front (c ∷ []) cs)) (omega (arith, length-append front (c ∷ [])))
        (omega arith) (omega arith))
decode_at-Writes ll (c ∷ cs) front i o t zero array a l e h =
    let read : get_or array i 0 ≡ c = rw (a, ← l) (get_or_split front c cs) in
    let behind : drop (i + 1) array ≡ cs = rw (a, add-one, ← l) (drop_split front c cs) in
    let keep : (t' k : ℕ)
        → Writes (take o front) o (decode t' k cs) (decode_at ll (length cs) (i + 1) o t' k array) =
      λ t' k. Writes-keep front o c _ _ (omega arith) (
        decode_at-Writes ll cs (front ++ c ∷ []) (i + 1) o t' k array
          (a ∙ sym (append_assoc front (c ∷ []) cs)) (omega (arith, length-append front (c ∷ [])))
          (omega arith) (omega arith)) in
    let put : (v t' k : ℕ)
        → Writes (take o front) o (v ∷ decode t' k cs)
            (decode_at ll (length cs) (i + 1) (o + 1) t' k (set array o v)) =
      λ v t' k.
        let (front', e', l', p) = set_split front o v c cs (omega arith) in
        Writes-put _ front' o v _ _ p (
          decode_at-Writes ll cs front' (i + 1) (o + 1) t' k (set array o v) (rw a e') (omega arith)
            (omega arith) (omega arith)) in
    let same_test : leb 2 (suc (length cs)) ≡ leb (i + 2) ll = ground arith in
    elim (Bool-cases (c == b'%')) [
      | inr plain ↦ rw (decode_at, decode, read, plain, read) (put c t 0)
      | inl percent ↦ elim (Bool-cases (leb (i + 2) ll)) [
        | inr short ↦ rw (decode_at, decode, read, percent, same_test, short) (keep t 0)
        | inl room ↦ elim (Scan-cases (scan_hex cs)) [
          | inl (v, m) ↦
              rw (decode_at, decode, read, percent, same_test, room, behind, m) (put v v 2)
          | inr (inl m) ↦
              rw (decode_at, decode, read, percent, same_test, room, behind, m) (keep t 0)
          | inr (inr m) ↦
              rw (decode_at, decode, read, percent, same_test, room, behind, m) (put t t 2)
        ]
      ]
    ]

-- Decoding in place returns as many bytes, and leaves the same bytes in front of the array, as
-- decoding into another array.
pub percent_decode_in_place-eq :
    (t : ℕ) (text : Bytes)
    → ((percent_decode_in_place t text).1 ≡ length (percent_decode t text))
      × (take (percent_decode_in_place t text).1 (percent_decode_in_place t text).0
          ≡ percent_decode t text)
unfolding percent_decode percent_decode_in_place
percent_decode_in_place-eq t text =
    let (n, bytes) =
      decode_at-Writes (length text) text [] 0 0 t 0 text refl refl (omega arith) (omega arith) in
    (omega (arith, n), bytes)
