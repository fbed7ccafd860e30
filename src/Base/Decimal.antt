-- ===== src/Base/Decimal.antt =====
-- Decimal digits, as "%d" of `printf` writes a number that is not negative.
use Prim.Native.Nat.{ℕ, zero, suc, ◌+◌, ◌*◌, ◌-◌, ◌/◌, ◌%◌, ◌^◌, ◌<◌, ◌≤◌}
use mathlib.Core.Path.{◌≡◌, refl, ◌∙◌}
use mathlib.Core.Bool.{false}
use mathlib.Core.List.{[], ◌∷◌, ◌++◌}
use mathlib.Core.Logic.{inl, inr}
use native.Mathlib.Omega.{arith}
use sillyweb.Base.Tests.{ltb, if◌then◌else◌, Bool-cases}
use sillyweb.Base.Text.{Bytes}
use sillyweb.Base.Lists.{All, All-append, length, length-append}

-- One digit for each unit of fuel.
digits : ℕ → ℕ → Bytes
digits zero n = []
digits (suc fuel) n =
    let rest = digits fuel (n / 10) in
    if ltb n 10 then (b'0' + n) ∷ [] else rest ++ (b'0' + n % 10) ∷ []

unfoldable pub decimal : ℕ → Bytes
unfolding digits
decimal n = digits (suc n) n

-- The number that digits stand for.
unfoldable pub read_digits : ℕ → Bytes → ℕ
read_digits n [] = n
read_digits n (c ∷ cs) = read_digits (n * 10 + (c - b'0')) cs

read_digits-append :
    (n c : ℕ) (s : Bytes) → read_digits n (s ++ c ∷ []) ≡ read_digits n s * 10 + (c - b'0')
unfolding read_digits
read_digits-append n c [] = refl
read_digits-append n c (d ∷ s) = read_digits-append (n * 10 + (d - b'0')) c s

read_digits-digits : (fuel n : ℕ) → n < fuel → read_digits 0 (digits fuel n) ≡ n
unfolding digits
read_digits-digits zero n h = absurd (omega arith)
read_digits-digits (suc fuel) n h = elim (Bool-cases (ltb n 10)) [
  | inl small ↦ rw small (unfold read_digits in omega arith)
  | inr large ↦ rw large (
      read_digits-append 0 (b'0' + n % 10) (digits fuel (n / 10))
      ∙ next (read_digits-digits fuel (n / 10) (bound large)))
]
  where
    bound : ltb n 10 ≡ false → n / 10 < fuel
    bound e = ground arith

    next :
        read_digits 0 (digits fuel (n / 10)) ≡ n / 10
        → read_digits 0 (digits fuel (n / 10)) * 10 + (b'0' + n % 10 - b'0') ≡ n
    next e = omega (arith, e)

-- The digits of a number stand for it.
pub read_digits-decimal : (n : ℕ) → read_digits 0 (decimal n) ≡ n
unfolding decimal
read_digits-decimal n = read_digits-digits (suc n) n (omega arith)

abbrev pub IsDigit : ℕ → Type 0
IsDigit c = (b'0' ≤ c) × (c ≤ b'9')

digits-IsDigit : (fuel n : ℕ) → All IsDigit (digits fuel n)
unfolding digits
digits-IsDigit zero n = tt
digits-IsDigit (suc fuel) n = elim (Bool-cases (ltb n 10)) [
  | inl small ↦ rw (digits, small) ((omega arith, ground arith), tt)
  | inr large ↦
      rw (digits, large)
        (All-append IsDigit (digits fuel (n / 10)) ((b'0' + n % 10) ∷ [])
          (digits-IsDigit fuel (n / 10)) ((omega arith, omega arith), tt))
]

pub decimal-IsDigit : (n : ℕ) → All IsDigit (decimal n)
unfolding decimal
decimal-IsDigit n = digits-IsDigit (suc n) n

pub decimal-positive : (n : ℕ) → 1 ≤ length (decimal n)
unfolding decimal digits
decimal-positive n = elim (Bool-cases (ltb n 10)) [
  | inl small ↦ rw (digits, small) (omega arith)
  | inr large ↦
      rw (digits, large) (omega (arith, length-append (digits n (n / 10)) ((b'0' + n % 10) ∷ [])))
]

-- A number below `10 ^ (k + 1)` has at most k + 1 digits.
length-digits : (k fuel n : ℕ) → n < 10 ^ suc k → length (digits fuel n) ≤ suc k
unfolding digits
length-digits k zero n h = omega arith
length-digits k (suc fuel) n h = elim (Bool-cases (ltb n 10)) [
  | inl small ↦ rw (digits, small) (omega arith)
  | inr large ↦ rw (digits, large) (more k large h λ j l. length-digits j fuel (n / 10) l)
]
  where
    more :
        (j : ℕ)
        → ltb n 10 ≡ false
        → n < 10 ^ suc j
        → ((i : ℕ) → n / 10 < 10 ^ suc i → length (digits fuel (n / 10)) ≤ suc i)
        → length (digits fuel (n / 10) ++ (b'0' + n % 10) ∷ []) ≤ suc j
    more zero large h rest = absurd (ground arith)
    more (suc j) large h rest =
        omega
          (arith, length-append (digits fuel (n / 10)) ((b'0' + n % 10) ∷ []), rest j (omega arith))

pub length-decimal : (k n : ℕ) → n < 10 ^ suc k → length (decimal n) ≤ suc k
unfolding decimal
length-decimal k n h = length-digits k (suc n) n h
