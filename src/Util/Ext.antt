-- ===== src/Util/Ext.antt =====
-- The extension of a file name.
use sillyweb.Base.{
  ℕ, suc, ◌≡◌, ◌≢◌, refl, ap, ◌∙◌, none, some, [], ◌∷◌, ◌++◌, length, drop, All, arith, Bytes,
}
use sillyweb.Util.{strrchr, ext_after, get_file_ext}

abbrev pub NoDot : Bytes → Type 0
NoDot = All (λ c. c ≢ b'.')

strrchr-none : (s : Bytes) → NoDot s → strrchr s b'.' ≡ none
unfolding strrchr
strrchr-none [] h = refl
strrchr-none (c ∷ cs) h = ground (arith, strrchr-none cs h.1)

strrchr-append :
    (stem ext : Bytes) → NoDot ext → strrchr (stem ++ (b'.' ∷ ext)) b'.' ≡ some (length stem)
unfolding strrchr
strrchr-append [] ext h = ground (arith, strrchr-none ext h)
strrchr-append (c ∷ stem) ext h = ground (arith, strrchr-append stem ext h)

-- The extension of a name is what stands behind its last dot, if something stands before that dot.
get_file_ext-append :
    (c : ℕ) (stem ext : Bytes) → NoDot ext → get_file_ext ((c ∷ stem) ++ (b'.' ∷ ext)) ≡ ext
unfolding get_file_ext
get_file_ext-append c stem ext h =
    ap (ext_after (c ∷ (stem ++ (b'.' ∷ ext)))) (strrchr-append (c ∷ stem) ext h) ∙ rest stem
  where
    rest : (s : Bytes) → drop (suc (length s)) (s ++ (b'.' ∷ ext)) ≡ ext
    rest [] = refl
    rest (x ∷ s) = rest s

-- A name with no dot has no extension.
pub get_file_ext-NoDot : (s : Bytes) → NoDot s → get_file_ext s ≡ []
unfolding get_file_ext
get_file_ext-NoDot s h = ap (ext_after s) (strrchr-none s h)
