-- ===== src/Util/Printable.antt =====
-- What the log's filter leaves.
use sillyweb.Base.{
  ℕ, zero, suc, ◌≡◌, refl, ap, true, false, [], ◌∷◌, ◌==◌, length, take, c_str, c_str-cons, ◌≤◌,
  All, arith, Bytes, inl, inr, Bool-cases, if◌then◌else◌,
}
use sillyweb.Util.{is_print, filter_nonprintables}

shown_lem : (c f : ℕ) → is_print f ≡ true → is_print (if is_print c then c else f) ≡ true
shown_lem c f h = elim (Bool-cases (is_print c)) [ inl y ↦ rw y y | inr n ↦ rw n h ]

is_print-pos : (c : ℕ) → is_print c ≡ true → 1 ≤ c
unfolding is_print
is_print-pos c h = ground arith

-- With a printable replacement the filter leaves the length of a string, and only printable bytes
-- among the first `len` bytes of it, up to a NUL.
pub filter_nonprintables-is_print :
    (s : Bytes) (len filterchar : ℕ)
    → is_print filterchar ≡ true
    → (length (filter_nonprintables s len filterchar) ≡ length s)
      × All (λ c. is_print c ≡ true) (c_str (take len (filter_nonprintables s len filterchar)))
unfolding filter_nonprintables c_str
filter_nonprintables-is_print [] zero f h = (refl, tt)
filter_nonprintables-is_print [] (suc len) f h = (refl, tt)
filter_nonprintables-is_print (c ∷ cs) zero f h = (refl, tt)
filter_nonprintables-is_print (zero ∷ cs) (suc len) f h = (refl, tt)
filter_nonprintables-is_print (suc c ∷ cs) (suc len) f h =
    let (size, printable) = filter_nonprintables-is_print cs len f h in
    let kept : (suc c == 0) ≡ false = ground arith in
    let shown : is_print (if is_print (suc c) then suc c else f) ≡ true = shown_lem (suc c) f h in
    rw (filter_nonprintables, kept)
      (
        ap suc size,
        rw (c_str-cons _ (take len (filter_nonprintables cs len f)) (is_print-pos _ shown))
            (shown, printable),
      )
