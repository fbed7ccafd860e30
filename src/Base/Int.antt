-- ===== src/Base/Int.antt =====
-- The signed results of C calls: `negsuc n` is -(n + 1).
use Prim.Native.Nat.{ℕ, suc, ◌-◌, ◌%◌, ◌^◌}
use mathlib.Core.Bool.{Bool, true, false}
use sillyweb.Base.Tests.{◌==◌}

pub data ℤ : Type 0 where
  pos : ℕ → ℤ
  negsuc : ℕ → ℤ

-- `n > 0`
abbrev pub is_positive : ℤ → Bool
is_positive (pos (suc n)) = true
is_positive _ = false

-- `n < 0`
abbrev pub is_negative : ℤ → Bool
is_negative (pos n) = false
is_negative (negsuc n) = true

-- a signed result tested as a condition: `if (n)`
abbrev pub is_nonzero : ℤ → Bool
is_nonzero (pos n) = elim (n == 0) [ true ↦ false | false ↦ true ]
is_nonzero (negsuc n) = true

-- conversion to `size_t`: modulo 2 ^ 64
abbrev pub to_size : ℤ → ℕ
to_size (pos n) = n % 2 ^ 64
to_size (negsuc n) = 2 ^ 64 - suc (n % 2 ^ 64)
