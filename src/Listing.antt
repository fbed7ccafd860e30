-- ===== src/Listing.antt =====
-- main.c: `generate_dir_listing`. `none` is an access outside a block or an array, or through NULL.
pub mod Page
use sillyweb.Base.{
  ℕ, ◌+◌, Bool, true, false, List, [], ◌∷◌, ◌++◌, Option, none, some, length, take, drop,
  if◌then◌else◌, Bytes, codes, strstr, pos, ℤ,
}
use sillyweb.Memory.{Allocator}
use sillyweb.Buffer.{Buffer, append_buffer}
use sillyweb.Headers.{add_header}
use sillyweb.Log.{shown}
use sillyweb.Platform.{Platform}
use sillyweb.Util.{sctime}
use sillyweb.Client.{Client}
use sillyweb.Service.{Vhost}
use sillyweb.Request.Parse.{server_version_string}
use sillyweb.Transfer.{int_text}

-- The path below the document root.
unfoldable pub residual_path : Bytes → Bytes → Bytes
unfolding strstr
residual_path dir root = elim (strstr dir root) [ none ↦ dir | some rest ↦ drop (length root) rest ]

-- What is appended by one call: an array, as far as it was written, and the length.
pub record Piece : Type 0 where
  pub array : Bytes
  pub size : ℕ

abbrev pub literal : Bytes → ℕ → Piece
literal text n = record { array = text; size = n }

-- `l = snprintf(buffer, 1024, …)`: the array has the text as far as it fits, and a NUL.
abbrev pub printed : Bytes → Piece
printed text = record { array = take 1023 text ++ 0 ∷ []; size = length text }

-- The calls of `append_buffer`, in their order; what they return is dropped.
unfoldable pub append_pieces : Allocator → Buffer → List Piece → Option Buffer
append_pieces mem b [] = some b
append_pieces mem b (p ∷ ps) = elim (append_buffer mem b p.array p.size) [
  | none ↦ none
  | some (b', done) ↦ append_pieces mem b' ps
]

abbrev pub file_row : Bytes → Bytes → Bytes → Bytes → Bytes
file_row residual name size time =
    codes "\t<tr><td><a href=\""
    ++ (residual
        ++ (codes "/"
            ++ (name
                ++ (codes "\">"
                    ++ (name
                        ++ (codes "</a></td><td>"
                            ++ (size ++ (codes "</td><td>" ++ (time ++ codes "</td></tr>\n")))))))))

abbrev pub other_row : Bytes → Bytes → Bytes → Bytes
other_row residual name time =
    codes "\t<tr><td><a href=\""
    ++ (residual
        ++ (codes "/"
            ++ (name
                ++ (codes "\">"
                    ++ (name
                        ++ (codes "</a</td><td></td><td>" ++ (time ++ codes "</td></tr>\n")))))))

module _ (os : Platform) where
  open os use {World}

  -- The row of a directory entry; its path is cut to the size of the array.
  unfoldable pub row : Bytes → Bytes → World → Bytes → Bytes
  row dir residual w name =
      let path = take 1023 (dir ++ (codes "/" ++ name)) in
      let (size, mtime) = os.stat path w in
      if os.is_file path w
      then file_row residual name (int_text size) (sctime os mtime w)
      else other_row residual name (sctime os mtime w)

  abbrev pub row_pieces : Bytes → Bytes → World → List Bytes → List Piece
  row_pieces dir residual w [] = []
  row_pieces dir residual w (name ∷ names) =
      printed (row dir residual w name) ∷ row_pieces dir residual w names

  -- The rows, or none if the directory does not open.
  abbrev pub directory_pieces : Bytes → Bytes → World → Option (List Bytes) → List Piece
  directory_pieces dir residual w none = []
  directory_pieces dir residual w (some names) = row_pieces dir residual w names

abbrev pub title : Bytes → Bytes
title residual = codes "<H1>Index of " ++ (residual ++ codes "</h1><br>\n")

abbrev pub table_head : Bytes
table_head = codes "<table><tr><td>Filename</td><td>Size</td><td>Last Modified</td></tr>\n"

abbrev pub footer : Client → Vhost → Bytes
footer c v =
    server_version_string
    ++ (codes " Server at "
        ++ (shown v.hostname
            ++ (codes " on port " ++ (int_text (pos c.server.port) ++ codes "<br>\n"))))

-- One byte of the rule's line, its newline, is not counted.
abbrev pub head_pieces : Bytes → List Piece
head_pieces residual =
    literal (codes "<html>") 6
    ∷ literal (codes "<body>") 6
    ∷ printed (title residual)
    ∷ literal (codes "<tr colspan=3><hr></tr>\n") 23
    ∷ printed table_head
    ∷ []

abbrev pub tail_pieces : Client → Vhost → List Piece
tail_pieces c v =
    printed (codes "</table>\n")
    ∷ printed (footer c v)
    ∷ literal (codes "</body>") 7
    ∷ literal (codes "</html>") 7
    ∷ []

module _ (os : Platform) (mem : Allocator) where
  open os use {World}

  -- All that is appended.
  unfoldable pub page_pieces : Client → Vhost → Bytes → Bytes → World → List Piece
  page_pieces c v dir residual w =
      head_pieces residual
      ++ (directory_pieces os dir residual w (os.list_dir dir w) ++ tail_pieces c v)

  -- `generate_dir_listing` with the virtual host and its root at hand.
  unfoldable pub listing_in : Client → Vhost → Bytes → Bytes → World → Option Client
  unfolding append_pieces page_pieces
  listing_in c v dir root w =
      let residual = residual_path dir root in
      elim (append_pieces mem c.outputbuffer (page_pieces c v dir residual w)) [
        | none ↦ none
        | some b ↦
            let headers =
              add_header mem c.outbound_headers (codes "Content-type") (codes "text/html") in
            some (record c {
              outputbuffer = b;
              outbound_headers =
                  add_header mem headers (codes "Content-Length") (int_text (pos b.len));
            })
      ]

  unfoldable pub generate_dir_listing : Client → Bytes → World → Option Client
  unfolding listing_in
  generate_dir_listing c dir w = elim c.vhost [
    | none ↦ none
    | some v ↦ elim v.document_root [ none ↦ none | some root ↦ listing_in c v dir root w ]
  ]
