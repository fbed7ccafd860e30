-- ===== src/Request/KeepAlive.antt =====
-- The "Connection" header of a request whose lines end in CR LF.
use sillyweb.Base.{
  ℕ, ◌≡◌, ◌≢◌, refl, ap, ◌∙◌, false, List, [], ◌∷◌, ◌++◌, Option, none, Bytes, codes, All, same,
  same_case, to_lower, map, arith,
}
use mathlib.Core.List.{map-append}
use sillyweb.Headers.{Header, get_header_value}
use sillyweb.Client.{Flags}
use sillyweb.Request.Line.{split_at}
use sillyweb.Request.Fields.{header_of}
use sillyweb.Request.{keep_alive_flags}
use sillyweb.Request.Parse.{connection_value}

-- A text that ends in `c` is not a text without `c`.
same-ends : (c : ℕ) (xs ys : Bytes) → All (λ y. y ≢ c) ys → same (xs ++ c ∷ []) ys ≡ false
unfolding same
same-ends c [] [] h = refl
same-ends c [] (y ∷ ys) h = ground arith
same-ends c (x ∷ xs) [] h = refl
same-ends c (x ∷ xs) (y ∷ ys) h = ground (arith, same-ends c xs ys h.1)

same_case-cr :
    (v word : Bytes)
    → All (λ y. y ≢ b'\r') (map to_lower word)
    → same_case (v ++ b'\r' ∷ []) word ≡ false
unfolding same_case
same_case-cr v word h =
    ap (λ t. same t (map to_lower word)) (map-append to_lower v (b'\r' ∷ []))
    ∙ same-ends b'\r' (map to_lower v) (map to_lower word) h

keep_alive_flags-cr : (v : Bytes) (f : Flags) → keep_alive_flags (v ++ b'\r' ∷ []) f ≡ f
unfolding keep_alive_flags
keep_alive_flags-cr v f = ground (
  arith,
  same_case-cr v (codes "Keep-Alive") (unfold to_lower in omega arith),
  same_case-cr v (codes "Close") (unfold to_lower in omega arith),
)

abbrev pub NoColon : Bytes → Type 0
NoColon = All (λ c. c ≢ b':')

split_at-none : (s : Bytes) → NoColon s → split_at b':' s ≡ (s, none)
unfolding split_at
split_at-none [] h = refl
split_at-none (c ∷ cs) h = ground (arith, split_at-none cs h.1)

NoColon-cr : (v : Bytes) → NoColon v → NoColon (v ++ b'\r' ∷ [])
NoColon-cr [] h = omega arith
NoColon-cr (c ∷ v) h = (h.0, NoColon-cr v h.1)

-- The header of a line "Connection:…" with no other colon.
connection_line :
    (v : Bytes) (hs : List Header)
    → NoColon v
    → connection_value (header_of (codes "Connection:" ++ v) ++ hs) ≡ v
unfolding header_of get_header_value same split_at
connection_line v hs h = ap (λ (p : Bytes × Option Bytes). p.0) (split_at-none v h)

-- A line "Connection:", a value with no other colon, and CR, as the first line of all that are
-- looked up, has no effect: the value keeps the CR, so it is taken for neither "Keep-Alive" nor
-- "Close", and the flags stay as they are.
pub connection_line-cr :
    (v : Bytes) (hs : List Header) (f : Flags)
    → NoColon v
    → keep_alive_flags
        (connection_value (header_of (codes "Connection:" ++ (v ++ b'\r' ∷ [])) ++ hs))
        f
      ≡ f
connection_line-cr v hs f h =
    rw (connection_line (v ++ b'\r' ∷ []) hs (NoColon-cr v h)) (keep_alive_flags-cr v f)
