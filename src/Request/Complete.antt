-- ===== src/Request/Complete.antt =====
-- When `is_client_request_complete` finds the end of the headers.
use sillyweb.Base.{
  ℕ, ◌<◌, ◌≡◌, refl, ap, ◌⊎◌, inl, inr, Bool, true, false, [], ◌∷◌, ◌++◌, ◌==◌, ==_iff, ==_refl,
  ltb, Option, none, some, elim_some, Bytes, codes, starts_with, strstr, arith, Bool-cases,
  if◌then◌else◌, ◌↔◌,
}
use sillyweb.Buffer.{Buffer}
use sillyweb.Request.{text_at, is_some, is_client_request_complete}

-- The text has the needle in it.
abbrev pub Contains : Bytes → Bytes → Type 0
Contains text needle = (front : Bytes) × (rest : Bytes) × (text ≡ front ++ (needle ++ rest))

starts_with_sound :
    (needle text : Bytes)
    → starts_with needle text ≡ true
    → (rest : Bytes) × (text ≡ needle ++ rest)
unfolding starts_with
starts_with_sound [] text h = (text, refl)
starts_with_sound (p ∷ ps) [] h = absurd (cc h)
starts_with_sound (p ∷ ps) (c ∷ cs) h = elim (Bool-cases (c == p)) [
  | inl e ↦
      let (rest, e') = starts_with_sound ps cs (rw e at h) in (rest, cc ((==_iff c p).0 e, e'))
  | inr other ↦ absurd (cc (rw other at h))
]

starts_with_complete : (needle rest : Bytes) → starts_with needle (needle ++ rest) ≡ true
unfolding starts_with
starts_with_complete [] rest = refl
starts_with_complete (p ∷ ps) rest = rw (==_refl p) (starts_with_complete ps rest)

strstr_sound : (text needle : Bytes) → is_some (strstr text needle) ≡ true → Contains text needle
unfolding strstr is_some
strstr_sound [] needle h = elim (Bool-cases (starts_with needle [])) [
  | inl at_once ↦ let (rest, e) = starts_with_sound needle [] at_once in ([], rest, e)
  | inr absent ↦ absurd (cc (rw absent at h))
]
strstr_sound (c ∷ cs) needle h = elim (Bool-cases (starts_with needle (c ∷ cs))) [
  | inl at_once ↦ let (rest, e) = starts_with_sound needle (c ∷ cs) at_once in ([], rest, e)
  | inr later ↦
      let (front, rest, e) = strstr_sound cs needle (rw later at h) in
      (c ∷ front, rest, ap (◌∷◌ c) e)
]

strstr_here :
    (text needle : Bytes) → starts_with needle text ≡ true → is_some (strstr text needle) ≡ true
unfolding strstr is_some
strstr_here [] needle h = rw h refl
strstr_here (c ∷ cs) needle h = rw h refl

strstr_complete :
    (front needle rest : Bytes) → is_some (strstr (front ++ (needle ++ rest)) needle) ≡ true
unfolding strstr is_some
strstr_complete [] needle rest =
    strstr_here (needle ++ rest) needle (starts_with_complete needle rest)
strstr_complete (c ∷ front) needle rest =
    elim (Bool-cases (starts_with needle (c ∷ (front ++ (needle ++ rest))))) [
      | inl at_once ↦ rw at_once refl
      | inr later ↦ rw later (strstr_complete front needle rest)
    ]

strstr_iff : (text needle : Bytes) → (is_some (strstr text needle) ≡ true) ↔ Contains text needle
strstr_iff text needle =
    (strstr_sound text needle, λ (front, rest, e). rw e (strstr_complete front needle rest))

tests_iff :
    (p q r : Bool)
    → ((if p then (if q then true else r) else false) ≡ true)
      ↔ ((p ≡ true) × ((q ≡ true) ⊎ (r ≡ true)))
tests_iff p q r = ground arith

longer_iff : (m n : ℕ) → (ltb m n ≡ true) ↔ (m < n)
longer_iff m n = ground arith

guarded :
    (p x : Bool) (o : Option Bytes) (bytes : Bytes)
    → o ≡ some bytes
    → (if p then elim o [ none ↦ none | some _ ↦ some x ] else some false)
      ≡ some (if p then x else false)
guarded true x o bytes h = elim_some o (λ _. some x) bytes h
guarded false x o bytes h = refl

-- On a buffer that has a block the test ends, and a request counts as complete exactly if the
-- buffer has more than four bytes and the C string at its block has an empty line in it, with line
-- ends of CR LF or of LF.
pub is_client_request_complete-Contains :
    (b : Buffer) (behind bytes : Bytes)
    → b.buffer ≡ some bytes
    → (found : Bool) × (is_client_request_complete b behind ≡ some found)
      × ((found ≡ true) ↔ (
          (4 < b.len)
          × (Contains (text_at b behind) (codes "\r\n\r\n")
              ⊎ Contains (text_at b behind) (codes "\n\n"))))
unfolding is_client_request_complete
is_client_request_complete-Contains b behind bytes filled =
    let (crlf, crlf') = strstr_iff (text_at b behind) (codes "\r\n\r\n") in
    let (lf, lf') = strstr_iff (text_at b behind) (codes "\n\n") in
    let (long, long') = longer_iff 4 b.len in
    let has_crlf = is_some (strstr (text_at b behind) (codes "\r\n\r\n")) in
    let has_lf = is_some (strstr (text_at b behind) (codes "\n\n")) in
    let (found, found') = tests_iff (ltb 4 b.len) has_crlf has_lf in
    (
      if ltb 4 b.len then (if has_crlf then true else has_lf) else false,
      guarded (ltb 4 b.len) (if has_crlf then true else has_lf) b.buffer bytes filled,
      (
        λ h.
            let (l, ends) = found h in
            (long l, elim ends [ inl x ↦ inl (crlf x) | inr y ↦ inr (lf y) ]),
        λ (l, ends). found' (long' l, elim ends [ inl x ↦ inl (crlf' x) | inr y ↦ inr (lf' y) ]),
      ),
    )
