-- ===== src/Tests/Requests.antt =====
-- The parts of `parse_request` on concrete requests.
use sillyweb.Base.{
  ◌↔◌, ◌<◌, ◌⊎◌, ◌≡◌, refl, Bool, true, [], ◌∷◌, ◌++◌, some, Bytes, codes, arith, is_space,
}
use sillyweb.Client.{no_flags}
use sillyweb.Request.{keep_alive_flags, is_client_request_complete, text_at}
use sillyweb.Request.Complete.{Contains, is_client_request_complete-Contains}
use sillyweb.Request.Line.{
  RequestLine, scan_request_line, FitsWord, scan_request_line_bounds, scan_request_line_words,
}
use sillyweb.Request.Fields.{field_loop, rounds, lines, headers_of, field_loop-lines}
use sillyweb.Request.KeepAlive.{connection_line-cr}
use sillyweb.Request.Parse.{connection_value}
use sillyweb.Request.Fields.{header_of}
use sillyweb.Tests.Env.{arena, filled}

abbrev get_line : RequestLine
get_line = record { method = codes "GET"; uri = codes "/a"; httpsp = codes "HTTP/1.1" }

scan_request_line_words_example : scan_request_line (codes "GET /a HTTP/1.1\r") ≡ some get_line
unfolding is_space
scan_request_line_words_example =
    scan_request_line_words (codes "GET") (codes "/a") (codes "HTTP/1.1") b'\r' []
      (omega arith, omega arith, (refl, (refl, (refl, tt))))
      (omega arith, omega arith, (refl, (refl, tt)))
      (omega arith, omega arith, (refl, (refl, (refl, (refl, (refl, (refl, (refl, (refl, tt)))))))))
      refl

scan_request_line_bounds_example :
    FitsWord 20 get_line.method × FitsWord 1024 get_line.uri × FitsWord 20 get_line.httpsp
scan_request_line_bounds_example =
    scan_request_line_bounds (codes "GET /a HTTP/1.1\r") get_line scan_request_line_words_example

abbrev fields : Bytes
fields = codes "Host: a\nAccept: b\n\n"

field_loop-lines_example :
    field_loop arena (rounds (some fields)) (some fields) []
    ≡ some ([] ++ headers_of (lines fields))
field_loop-lines_example = field_loop-lines arena refl fields []

connection_line-cr_example :
    keep_alive_flags
      (connection_value
        (header_of (codes "Connection:" ++ (codes " Keep-Alive" ++ b'\r' ∷ [])) ++ []))
      (record no_flags { http_1_1 = true; close = true })
    ≡ record no_flags { http_1_1 = true; close = true }
connection_line-cr_example =
    connection_line-cr (codes " Keep-Alive") [] (record no_flags { http_1_1 = true; close = true })
      (omega arith)

is_client_request_complete-Contains_example :
    (found : Bool) × (is_client_request_complete (filled (codes "GET / HTTP/1.0\n\n")) []
      ≡ some found)
    × ((found ≡ true) ↔ (
        (4 < 16)
        × (Contains (text_at (filled (codes "GET / HTTP/1.0\n\n")) []) (codes "\r\n\r\n")
            ⊎ Contains (text_at (filled (codes "GET / HTTP/1.0\n\n")) []) (codes "\n\n"))))
is_client_request_complete-Contains_example =
    is_client_request_complete-Contains (filled (codes "GET / HTTP/1.0\n\n")) []
      (codes "GET / HTTP/1.0\n\n") refl
