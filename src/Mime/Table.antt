-- ===== src/Mime/Table.antt =====
-- mime.c: the table `MIME_LIST`, up to the entry of NULLs that ends it.
mod First
mod Second
mod Third
mod Fourth
mod Fifth
use sillyweb.Base.{List, ◌++◌}
use sillyweb.Mime.Entry.{MimeEntry}
use First.{mime_list_first}
use Second.{mime_list_second}
use Third.{mime_list_third}
use Fourth.{mime_list_fourth}
use Fifth.{mime_list_fifth}

unfoldable pub mime_list : List MimeEntry
unfolding mime_list_first mime_list_second mime_list_third mime_list_fourth mime_list_fifth
mime_list =
    mime_list_first
    ++ (mime_list_second ++ (mime_list_third ++ (mime_list_fourth ++ mime_list_fifth)))
