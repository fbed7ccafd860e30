-- ===== src/Request/Fields.antt =====
-- The loop of `parse_request` over the header lines.
use sillyweb.Base.{
  ℕ, zero, suc, ◌+◌, ◌≤◌, ◌≡◌, refl, ap, ◌∙◌, true, List, [], ◌∷◌, ◌++◌, Option, none, some, length,
  ◌==◌, if◌then◌else◌, Bytes, arith, Bool-cases, inl, inr, Option-cases, append-nil, append_assoc,
  sym,
}
use sillyweb.Memory.{Allocator}
use sillyweb.Headers.{Header, sizeof_header, add_header}
use sillyweb.Request.Line.{split_at, IsShorter, split_at-IsShorter}

-- Rounds that the loop takes at most: one for each line, and the last, on NULL.
abbrev pub rounds : Option Bytes → ℕ
rounds none = 1
rounds (some text) = length text + 2

-- The two calls of `strsep` on a line, and `add_header` if both gave a token.
add_field : Allocator → Bytes → List Header → List Header
add_field mem line headers =
    let (nametoken, valuetokenstr) = split_at b':' line in
    elim valuetokenstr [
      | none ↦ headers
      | some rest ↦ add_header mem headers nametoken (split_at b':' rest).0
    ]

-- `do … while(headertoken != NULL)`: the argument is `headertokenstr`, and fuel is spent on each
-- round.
unfoldable pub field_loop : Allocator → ℕ → Option Bytes → List Header → Option (List Header)
unfolding add_field split_at
field_loop mem zero text headers = none
field_loop mem (suc fuel) none headers = some headers
field_loop mem (suc fuel) (some text) headers =
    let (line, rest) = split_at b'\n' text in field_loop mem fuel rest (add_field mem line headers)

abbrev pub add_to_first : ℕ → List Bytes → List Bytes
add_to_first c [] = (c ∷ []) ∷ []
add_to_first c (l ∷ ls) = (c ∷ l) ∷ ls

-- The lines of a text, one more than it has newlines.
unfoldable pub lines : Bytes → List Bytes
lines [] = [] ∷ []
lines (c ∷ cs) = let rest = lines cs in if c == b'\n' then [] ∷ rest else add_to_first c rest

abbrev rest_lines : Option Bytes → List Bytes
rest_lines none = []
rest_lines (some rest) = lines rest

-- The header of a line: the text up to the first colon, and that from there to the next colon.
unfoldable pub header_of : Bytes → List Header
header_of line = elim (split_at b':' line).1 [
  | none ↦ []
  | some rest ↦
      record { header_name = (split_at b':' line).0; header_value = (split_at b':' rest).0 } ∷ []
]

unfoldable pub headers_of : List Bytes → List Header
headers_of [] = []
headers_of (l ∷ ls) = header_of l ++ headers_of ls

lines-split_at : (s : Bytes) → lines s ≡ (split_at b'\n' s).0 ∷ rest_lines (split_at b'\n' s).1
unfolding lines split_at
lines-split_at [] = refl
lines-split_at (c ∷ cs) = elim (Bool-cases (c == b'\n')) [
  | inl e ↦ rw e
  | inr n ↦ rw n (ap (add_to_first c) (lines-split_at cs) ∙ unfold add_to_first in refl)
]

module _ (mem : Allocator) (ok : mem.calloc sizeof_header ≡ true) where
  add_field-header_of :
      (line : Bytes) (hs : List Header) → add_field mem line hs ≡ hs ++ header_of line
  unfolding add_field header_of add_header
  add_field-header_of line hs = elim (Option-cases (split_at b':' line).1) [
    | inl e ↦ rw (add_field, header_of, e) (sym (append-nil hs))
    | inr (rest, e) ↦ rw (add_field, header_of, e, ok)
  ]

  field_loop_rest :
      (fuel : ℕ) (s : Option Bytes) (hs : List Header)
      → rounds s ≤ fuel
      → field_loop mem fuel s hs ≡ some (hs ++ headers_of (rest_lines s))
  unfolding field_loop headers_of
  field_loop_rest zero none hs h = absurd (omega arith)
  field_loop_rest zero (some s) hs h = absurd (omega arith)
  field_loop_rest (suc fuel) none hs h = ap some (sym (append-nil hs))
  field_loop_rest (suc fuel) (some s) hs h =
      let (line, rest) = split_at b'\n' s in
      field_loop_rest fuel rest (add_field mem line hs) (enough rest (split_at-IsShorter b'\n' s))
      ∙ ap some (
          ap (λ k. k ++ headers_of (rest_lines rest)) (add_field-header_of line hs)
          ∙ append_assoc hs (header_of line) (headers_of (rest_lines rest))
          ∙ ap (λ ls. hs ++ headers_of ls) (sym (lines-split_at s)))
    where
      enough : (r : Option Bytes) → IsShorter r (length s) → rounds r ≤ fuel
      enough none k = omega arith
      enough (some r) k = omega arith

  -- While there is memory for a header, the loop over the header lines ends, and puts in the
  -- headers of all lines, in their order, behind the headers that were there.
  pub field_loop-lines :
      (text : Bytes) (hs : List Header)
      → field_loop mem (rounds (some text)) (some text) hs ≡ some (hs ++ headers_of (lines text))
  field_loop-lines text hs = field_loop_rest (rounds (some text)) (some text) hs (omega arith)

-- The loop ends within its rounds, whatever the allocator does.
pub field_loop_total :
    (mem : Allocator) (fuel : ℕ) (s : Option Bytes) (hs : List Header)
    → rounds s ≤ fuel
    → (hs' : List Header) × (field_loop mem fuel s hs ≡ some hs')
unfolding field_loop
field_loop_total mem zero none hs h = absurd (omega arith)
field_loop_total mem zero (some s) hs h = absurd (omega arith)
field_loop_total mem (suc fuel) none hs h = (hs, refl)
field_loop_total mem (suc fuel) (some s) hs h =
    let (line, rest) = split_at b'\n' s in
    field_loop_total mem fuel rest (add_field mem line hs)
      (enough rest (split_at-IsShorter b'\n' s))
  where
    enough : (r : Option Bytes) → IsShorter r (length s) → rounds r ≤ fuel
    enough none k = omega arith
    enough (some r) k = omega arith
