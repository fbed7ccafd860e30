-- ===== src/Tests/Texts.antt =====
-- percent.c, headers.c, util.c, http.c and mime.c on concrete texts.
use sillyweb.Base.{
  Bytes, IsFirst, ◌≡◌, ◌↔◌, refl, List, [], ◌∷◌, none, some, if◌then◌else◌, length, take, All,
  codes, same,
}
use sillyweb.Headers.{Header, add_header, get_header_value}
use sillyweb.Headers.Lookup.{or_default, get_header_value-add_header}
use sillyweb.Http.{HttpErrorCode, get_http_result_text, http_errors}
use sillyweb.Percent.{percent_decode, percent_decode_in_place, scan_hex}
use sillyweb.Percent.InPlace.{percent_decode_in_place-eq}
use sillyweb.Util.{get_file_ext}
use sillyweb.Mime.{get_mime_from_filename}
use sillyweb.Mime.Search.{HasExtension, get_mime_from_filename-IsFirst}
use sillyweb.Mime.Entry.{MimeEntry}
use sillyweb.Mime.Table.{mime_list}
use sillyweb.Http.Texts.{get_http_result_text-IsFirst}
use sillyweb.Tests.Env.{arena}

decode_test : percent_decode 0 (codes "a%20b%2Fc%") ≡ codes "a b/c"
unfolding percent_decode scan_hex
decode_test = refl

mime_test : get_mime_from_filename (codes "index.html") ≡ some (codes "text/html")
unfolding get_mime_from_filename mime_list same get_file_ext
mime_test = refl

text_test : get_http_result_text 200 ≡ some (codes "OK")
unfolding get_http_result_text
text_test = refl

get_header_value-add_header_example :
    get_header_value (add_header arena [] (codes "Host") (codes "a")) none (codes "Host")
    ≡ or_default
        (get_header_value [] none (codes "Host"))
        (if same (codes "Host") (codes "Host") then some (codes "a") else none)
get_header_value-add_header_example =
    get_header_value-add_header arena [] (codes "Host") (codes "a") (codes "Host") none refl

percent_decode_in_place-eq_example :
    ((percent_decode_in_place 0 (codes "a%20b")).1 ≡ length (percent_decode 0 (codes "a%20b")))
    × (take
          (percent_decode_in_place 0 (codes "a%20b")).1
          (percent_decode_in_place 0 (codes "a%20b")).0
        ≡ percent_decode 0 (codes "a%20b"))
percent_decode_in_place-eq_example = percent_decode_in_place-eq 0 (codes "a%20b")

abbrev some_headers : List Header
some_headers = record { header_name = codes "Host"; header_value = codes "a" } ∷ []

get_mime_from_filename-IsFirst_example :
    ((get_mime_from_filename (codes "a.png") ≡ none)
      ↔ All (λ e. ¬ HasExtension (get_file_ext (codes "a.png")) e) mime_list)
    × ((type : Bytes)
        → (get_mime_from_filename (codes "a.png") ≡ some type) ↔ (
            (e : MimeEntry) × IsFirst (HasExtension (get_file_ext (codes "a.png"))) e mime_list
            × (codes e.mimetype ≡ type)))
get_mime_from_filename-IsFirst_example = get_mime_from_filename-IsFirst (codes "a.png")

get_http_result_text-IsFirst_example :
    ((get_http_result_text 418 ≡ none) ↔ All (λ e. ¬ (e.result_code ≡ 418)) http_errors)
    × ((text : Bytes)
        → (get_http_result_text 418 ≡ some text) ↔ (
            (e : HttpErrorCode) × IsFirst (λ e. e.result_code ≡ 418) e http_errors
            × (e.result_string ≡ text)))
get_http_result_text-IsFirst_example = get_http_result_text-IsFirst 418
