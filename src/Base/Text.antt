-- ===== src/Base/Text.antt =====
-- C strings as lists of bytes, and the calls of string.h and ctype.h that the sources make.
use Prim.Native.Nat.{ℕ, zero, suc, ◌+◌, ◌≤◌}
use Prim.Native.Char.{code}
use Prim.Native.String.{String}
use mathlib.Core.Path.{◌≡◌, refl, ap}
use mathlib.Core.Logic.{◌↔◌}
use mathlib.Core.Bool.{Bool, true, false, ◌&&◌, ◌||◌}
use mathlib.Core.List.{List, [], ◌∷◌, map}
use mathlib.Core.Option.{Option, none, some}
use native.Mathlib.Omega.{arith}
use sillyweb.Base.Lists.{length}
use sillyweb.Base.Tests.{leb, ◌==◌, if◌then◌else◌}

abbrev pub Bytes : Type 0
Bytes = List ℕ

-- The bytes of an ASCII literal.
abbrev pub codes : String → Bytes
codes String.[] = []
codes (String.◌∷◌ c s) = code c ∷ codes s

-- The C string that starts an array of bytes: what stands before the first NUL.
unfoldable pub c_str : Bytes → Bytes
c_str [] = []
c_str (zero ∷ cs) = []
c_str (suc c ∷ cs) = suc c ∷ c_str cs

-- `!strcmp(a, b)`
unfoldable pub same : Bytes → Bytes → Bool
same [] [] = true
same (x ∷ xs) (y ∷ ys) = x == y && same xs ys
same _ _ = false

pub same_iff : (a b : Bytes) → (same a b ≡ true) ↔ (a ≡ b)
unfolding same
same_iff (x ∷ a) (y ∷ b) = ground (arith, same_iff a b)
same_iff _ _ = ground arith

pub same_refl : (a : Bytes) → same a a ≡ true
same_refl a = (same_iff a a).1 refl

-- `tolower`, in the C locale
unfoldable pub to_lower : ℕ → ℕ
to_lower c = if leb b'A' c && leb c b'Z' then c + 32 else c

-- `!strcasecmp(a, b)`
unfoldable pub same_case : Bytes → Bytes → Bool
unfolding to_lower same
same_case a b = same (map to_lower a) (map to_lower b)

-- `!strncmp(text, prefix, strlen(prefix))`
unfoldable pub starts_with : Bytes → Bytes → Bool
starts_with [] text = true
starts_with (p ∷ ps) [] = false
starts_with (p ∷ ps) (c ∷ cs) = c == p && starts_with ps cs

-- `strstr(text, needle)`: the text from the first occurrence on.
unfoldable pub strstr : Bytes → Bytes → Option Bytes
unfolding starts_with
strstr [] needle = if starts_with needle [] then some [] else none
strstr (c ∷ cs) needle =
    let rest = strstr cs needle in if starts_with needle (c ∷ cs) then some (c ∷ cs) else rest

-- `isspace`, in the C locale
unfoldable pub is_space : ℕ → Bool
is_space c = c == b' ' || (leb 9 c && leb c 13)

-- A byte list with no NUL is its own C string.
abbrev pub IsText : Bytes → Type 0
IsText [] = Unit {0}
IsText (c ∷ cs) = (1 ≤ c) × IsText cs

pub c_str-IsText : (s : Bytes) → IsText s → c_str s ≡ s
unfolding c_str
c_str-IsText [] h = refl
c_str-IsText (zero ∷ cs) h = absurd (omega arith)
c_str-IsText (suc c ∷ cs) h = ap (◌∷◌ (suc c)) (c_str-IsText cs h.1)

pub length-c_str : (s : Bytes) → length (c_str s) ≤ length s
unfolding c_str
length-c_str [] = omega arith
length-c_str (zero ∷ cs) = omega arith
length-c_str (suc c ∷ cs) = omega (arith, length-c_str cs)

pub c_str-cons : (c : ℕ) (cs : Bytes) → 1 ≤ c → c_str (c ∷ cs) ≡ c ∷ c_str cs
unfolding c_str
c_str-cons zero cs h = absurd (omega arith)
c_str-cons (suc c) cs h = refl
