-- ===== src/Mime.antt =====
-- mime.c: the type of a file by its extension.
pub mod Entry
pub mod Table
pub mod Search
use sillyweb.Base.{
  List, [], ◌∷◌, Option, none, some, Bytes, same, codes, true, false, if◌then◌else◌,
}
use sillyweb.Util.{get_file_ext}
use Entry.{MimeEntry}
use Table.{mime_list}

-- The loop from some entry on. At the end of the table the function has no `return`.
unfoldable pub mime_from : List MimeEntry → Bytes → Option Bytes
mime_from [] ext = none
mime_from (e ∷ es) ext =
    if same (codes e.extension) ext then some (codes e.mimetype) else mime_from es ext

-- `none` stands for the end of the function with no value returned.
unfoldable pub get_mime_from_filename : Bytes → Option Bytes
unfolding mime_from
get_mime_from_filename filename = mime_from mime_list (get_file_ext filename)
