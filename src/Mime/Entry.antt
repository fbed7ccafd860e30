-- ===== src/Mime/Entry.antt =====
-- mime.h: an entry of the table.
use sillyweb.Base.{String}

-- `struct mime_list`
pub record MimeEntry : Type 0 where
  pub extension : String
  pub mimetype : String
