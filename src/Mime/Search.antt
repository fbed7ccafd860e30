-- ===== src/Mime/Search.antt =====
-- Which names have a type.
use sillyweb.Base.{
  Bool, true, some, if◌then◌else◌, IsFirst, first_value, first_value-none, first_value-some, ◌≡◌,
  ◌↔◌, refl, List, [], ◌∷◌, none, All, Bytes, same, same_iff, codes, ap, ◌∙◌,
}
use sillyweb.Util.{get_file_ext}
use sillyweb.Util.Ext.{NoDot, get_file_ext-NoDot}
use sillyweb.Mime.{mime_from, get_mime_from_filename}
use sillyweb.Mime.Entry.{MimeEntry}
use sillyweb.Mime.Table.{mime_list}

-- The entry is for these files.
abbrev pub HasExtension : Bytes → MimeEntry → Type 0
HasExtension ext e = codes e.extension ≡ ext

mime_from-first_value :
    (es : List MimeEntry) (ext : Bytes)
    → mime_from es ext ≡ first_value (λ e. same (codes e.extension) ext) (λ e. codes e.mimetype) es
unfolding mime_from first_value
mime_from-first_value [] ext = refl
mime_from-first_value (e ∷ es) ext =
    ap (λ o. if same (codes e.extension) ext then some (codes e.mimetype) else o)
      (mime_from-first_value es ext)

-- A name has a type exactly if its extension stands in the table, and the type is that of the first
-- entry of the extension; for all other names the function ends without a value.
pub get_mime_from_filename-IsFirst :
    (filename : Bytes)
    → ((get_mime_from_filename filename ≡ none)
        ↔ All (λ e. ¬ HasExtension (get_file_ext filename) e) mime_list)
      × ((type : Bytes)
          → (get_mime_from_filename filename ≡ some type) ↔ (
              (e : MimeEntry) × IsFirst (HasExtension (get_file_ext filename)) e mime_list
              × (codes e.mimetype ≡ type)))
unfolding get_mime_from_filename
get_mime_from_filename-IsFirst filename =
    let ext = get_file_ext filename in
    let test : MimeEntry → Bool = λ e. same (codes e.extension) ext in
    let iff : (e : MimeEntry) → (test e ≡ true) ↔ HasExtension ext e =
      λ e. same_iff (codes e.extension) ext in
    rw (mime_from-first_value mime_list ext) (
      first_value-none test (λ e. codes e.mimetype) (HasExtension ext) iff mime_list,
      λ type. first_value-some test (λ e. codes e.mimetype) (HasExtension ext) iff mime_list type,
    )

mime_from-nil : mime_from mime_list [] ≡ none
unfolding mime_from mime_list same
mime_from-nil = refl

-- For a name with no dot the function ends without a value.
get_mime_from_filename-NoDot :
    (filename : Bytes) → NoDot filename → get_mime_from_filename filename ≡ none
unfolding get_mime_from_filename
get_mime_from_filename-NoDot filename h =
    ap (mime_from mime_list) (get_file_ext-NoDot filename h) ∙ mime_from-nil
