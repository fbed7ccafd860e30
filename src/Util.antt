-- ===== src/Util.antt =====
-- util.c: file extensions, times as texts, and the filter for the log. `is_file` and `is_dir` are
-- calls of `stat`, and the body of `trim_whitespace` is a comment.
pub mod Ext
pub mod Printable
use sillyweb.Base.{
  ℕ, zero, suc, Bool, true, false, Option, none, some, [], ◌∷◌, ◌==◌, ◌&&◌, leb, drop, take, length,
  ◌-◌, if◌then◌else◌, Bytes,
}
use mathlib.Core.Option
use sillyweb.Platform.{Platform}

-- `strrchr`: the position of the last occurrence.
unfoldable pub strrchr : Bytes → ℕ → Option ℕ
strrchr [] c = none
strrchr (x ∷ xs) c = elim (strrchr xs c) [
  | some i ↦ some (suc i)
  | none ↦ if x == c then some 0 else none
]

-- `d + 1`, unless there is no dot or only a leading one.
ext_after : Bytes → Option ℕ → Bytes
ext_after file none = []
ext_after file (some zero) = []
ext_after file (some (suc i)) = drop (suc (suc i)) file

unfoldable pub get_file_ext : Bytes → Bytes
unfolding ext_after strrchr
get_file_ext file = ext_after file (strrchr file b'.')

-- `isprint`, in the C locale
unfoldable pub is_print : ℕ → Bool
is_print c = leb 32 c && leb c 126

-- The first `len` bytes, or those before a NUL.
unfoldable pub filter_nonprintables : Bytes → ℕ → ℕ → Bytes
filter_nonprintables [] len filterchar = []
filter_nonprintables (c ∷ cs) zero filterchar = c ∷ cs
filter_nonprintables (c ∷ cs) (suc len) filterchar = elim (c == 0) [
  | true ↦ c ∷ cs
  | false ↦ (if is_print c then c else filterchar) ∷ filter_nonprintables cs len filterchar
]

-- `sctime`: the time, or the present for 0, as `ctime` writes it, without the last byte.
module _ (os : Platform) where
  open os use {World}

  unfoldable pub sctime : ℕ → World → Bytes
  sctime at w =
      let text = os.ctime (if at == 0 then os.time w else at) in take (length text - 1) text
