-- ===== src/Request/Line.antt =====
-- `strsep`, and the `sscanf` of the request line.
use mathlib.Core.Path.{subst}
use sillyweb.Base.{
  ℕ, zero, suc, ◌≤◌, ◌≡◌, refl, true, false, [], ◌∷◌, ◌++◌, ◌∙◌, Option, none, some, length, ◌==◌,
  if◌then◌else◌, Bytes, is_space, arith, All, ◌<◌, Bool-cases, inl, inr,
}

-- A text cut at the first occurrence of a byte, as `strsep` and `strchr` cut it.
unfoldable pub split_at : ℕ → Bytes → Bytes × Option Bytes
split_at d [] = ([], none)
split_at d (c ∷ cs) =
    let rest = split_at d cs in if c == d then ([], some cs) else (c ∷ rest.0, rest.1)

-- White space at the front is passed over.
unfoldable pub skip_space : Bytes → Bytes
skip_space [] = []
skip_space (c ∷ cs) = let rest = skip_space cs in if is_space c then rest else c ∷ cs

-- `%ns` behind the white space: at most n bytes up to the next white space, and what is left.
unfoldable pub scan_word : ℕ → Bytes → Bytes × Bytes
scan_word n [] = ([], [])
scan_word zero (c ∷ cs) = ([], c ∷ cs)
scan_word (suc n) (c ∷ cs) =
    let rest = scan_word n cs in if is_space c then ([], c ∷ cs) else (c ∷ rest.0, rest.1)

pub record RequestLine : Type 0 where
  pub method : Bytes
  pub uri : Bytes
  pub httpsp : Bytes

-- A conversion that finds no byte ends the scan.
abbrev next_word {ℓ} : {A : Type ℓ} → Bytes × Bytes → (Bytes → Bytes → Option A) → Option A
next_word ([], rest) k = none
next_word (c ∷ cs, rest) k = k (c ∷ cs) rest

-- `sscanf(line, "%20s %1024s %20s", …)`; `none` is a result other than 3.
unfoldable pub scan_request_line : Bytes → Option RequestLine
unfolding skip_space scan_word is_space
scan_request_line line = next_word (scan_word 20 (skip_space line)) λ m rest.
    next_word (scan_word 1024 (skip_space rest)) λ u rest'.
      next_word (scan_word 20 (skip_space rest'))
        λ h _. some (record { method = m; uri = u; httpsp = h })

abbrev pub IsWord : Bytes → Type 0
IsWord = All (λ c. is_space c ≡ false)

scan_word_bounds : (n : ℕ) (s : Bytes) → (length (scan_word n s).0 ≤ n) × IsWord (scan_word n s).0
unfolding scan_word
scan_word_bounds n [] = (omega arith, tt)
scan_word_bounds zero (c ∷ cs) = (omega arith, tt)
scan_word_bounds (suc n) (c ∷ cs) = ground (arith, scan_word_bounds n cs)

next_word_cases {ℓ} :
    {A : Type ℓ} (w : Bytes × Bytes) (k : Bytes → Bytes → Option A) {a : A}
    → next_word w k ≡ some a
    → (1 ≤ length w.0) × (k w.0 w.1 ≡ some a)
next_word_cases ([], rest) k e = cc
next_word_cases (c ∷ cs, rest) k e = (omega arith, e)

some_eq {ℓ} : {A : Type ℓ} {a b : A} → some a ≡ some b → a ≡ b
some_eq e = cc e

-- A word that fits into an array of `n + 1` bytes with its NUL.
abbrev pub FitsWord : ℕ → Bytes → Type 0
FitsWord n w = (1 ≤ length w) × (length w ≤ n) × IsWord w

-- The scan of the request line fills none of its arrays beyond the end, and what it finds are three
-- words, none of them empty.
pub scan_request_line_bounds :
    (line : Bytes) (r : RequestLine)
    → scan_request_line line ≡ some r
    → FitsWord 20 r.method × FitsWord 1024 r.uri × FitsWord 20 r.httpsp
unfolding scan_request_line
scan_request_line_bounds line r e =
    let m = scan_word 20 (skip_space line) in
    let u = scan_word 1024 (skip_space m.1) in
    let h = scan_word 20 (skip_space u.1) in
    let (m_some, e') = next_word_cases m _ e in
    let (u_some, e'') = next_word_cases u _ e' in
    let (h_some, e''') = next_word_cases h _ e'' in
    let (m_len, m_word) = scan_word_bounds 20 (skip_space line) in
    let (u_len, u_word) = scan_word_bounds 1024 (skip_space m.1) in
    let (h_len, h_word) = scan_word_bounds 20 (skip_space u.1) in
    subst (λ (q : RequestLine). FitsWord 20 q.method × FitsWord 1024 q.uri × FitsWord 20 q.httpsp)
      (some_eq e''') ((m_some, m_len, m_word), (u_some, u_len, u_word), (h_some, h_len, h_word))

-- A word in front of a white space is read whole.
scan_word-append :
    (n : ℕ) (w : Bytes) (c : ℕ) (rest : Bytes)
    → IsWord w
    → length w ≤ n
    → is_space c ≡ true
    → scan_word n (w ++ (c ∷ rest)) ≡ (w, c ∷ rest)
unfolding scan_word
scan_word-append zero [] c rest h l s = refl
scan_word-append (suc n) [] c rest h l s = rw s
scan_word-append zero (d ∷ w) c rest h l s = absurd (omega arith)
scan_word-append (suc n) (d ∷ w) c rest h l s =
    rw (h.0, scan_word-append n w c rest h.1 (omega arith) s)

skip_space-word : (n : ℕ) (w rest : Bytes) → FitsWord n w → skip_space (w ++ rest) ≡ w ++ rest
unfolding skip_space
skip_space-word n [] rest h = absurd (omega arith)
skip_space-word n (c ∷ w) rest h = rw h.2.0

skip_space-space : (c : ℕ) (s : Bytes) → is_space c ≡ true → skip_space (c ∷ s) ≡ skip_space s
unfolding skip_space
skip_space-space c s h = rw h

next_word-append {ℓ} :
    {A : Type ℓ} (n : ℕ) (w : Bytes) (c : ℕ) (rest : Bytes) (k : Bytes → Bytes → Option A)
    → FitsWord n w
    → is_space c ≡ true
    → next_word (scan_word n (skip_space (w ++ (c ∷ rest)))) k ≡ k w (c ∷ rest)
next_word-append n [] c rest k h s = absurd (omega arith)
next_word-append n (d ∷ w) c rest k h s =
    rw (skip_space-word n (d ∷ w) (c ∷ rest) h, scan_word-append n (d ∷ w) c rest h.2 h.1 s) refl

-- A request line of three words that fit, one space between them and a white space behind, is read
-- as these words.
pub scan_request_line_words :
    (m u h : Bytes) (c : ℕ) (rest : Bytes)
    → FitsWord 20 m
    → FitsWord 1024 u
    → FitsWord 20 h
    → is_space c ≡ true
    → scan_request_line (m ++ (b' ' ∷ (u ++ (b' ' ∷ (h ++ (c ∷ rest))))))
      ≡ some (record { method = m; uri = u; httpsp = h })
unfolding scan_request_line
scan_request_line_words m u h c rest fm fu fh s =
    let blank : is_space b' ' ≡ true = unfold is_space in refl in
    next_word-append 20 m b' ' _ _ fm blank
    ∙ rw (skip_space-space b' ' (u ++ (b' ' ∷ (h ++ (c ∷ rest)))) blank) (
        next_word-append 1024 u b' ' _ _ fu blank
        ∙ rw (skip_space-space b' ' (h ++ (c ∷ rest)) blank) (next_word-append 20 h c rest _ fh s))

-- What is left behind the cut is shorter than the text.
abbrev pub IsShorter : Option Bytes → ℕ → Type 0
IsShorter none n = Unit
IsShorter (some rest) n = length rest < n

pub split_at-IsShorter : (d : ℕ) (s : Bytes) → IsShorter (split_at d s).1 (length s)
unfolding split_at
split_at-IsShorter d [] = tt
split_at-IsShorter d (c ∷ cs) = elim (Bool-cases (c == d)) [
  | inl e ↦ rw e (omega arith)
  | inr n ↦ rw n (longer (split_at d cs).1 (split_at-IsShorter d cs))
]
  where
    longer : (r : Option Bytes) → IsShorter r (length cs) → IsShorter r (suc (length cs))
    longer none h = tt
    longer (some r) h = omega arith
