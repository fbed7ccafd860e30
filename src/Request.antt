-- ===== src/Request.antt =====
-- main.c: `is_client_request_complete` and `parse_request`.
pub mod Line
pub mod Fields
pub mod Parse
pub mod Codes
pub mod Total
pub mod Answers
pub mod KeepAlive
pub mod Complete
pub mod Located
pub mod Understood
use sillyweb.Base.{
  ℕ, Bool, true, false, not, List, [], ◌∷◌, ◌++◌, Option, none, some, take, drop, ltb,
  if◌then◌else◌, Bytes, codes, c_str, same, same_case, starts_with, strstr, to_lower, map,
}
use sillyweb.Memory.{block}
use sillyweb.Buffer.{Buffer}
use sillyweb.Percent.{percent_decode_in_place}
use sillyweb.Service.{HttpMethod}
use sillyweb.Client.{Flags}
use Line.{split_at}

-- The C string that begins at a buffer's block. No NUL is written behind the block, so what comes
-- behind it in memory, `behind`, is read on to the first NUL.
abbrev pub text_at : Buffer → Bytes → Bytes
text_at b behind = c_str (block b.buffer ++ behind)

unfoldable pub is_some {ℓ} : {A : Type ℓ} → Option A → Bool
is_some none = false
is_some (some a) = true

-- `is_client_request_complete`; a block that was lost is read through NULL.
unfoldable pub is_client_request_complete : Buffer → Bytes → Option Bool
unfolding is_some strstr c_str
is_client_request_complete b behind =
    if ltb 4 b.len
    then elim b.buffer [
      | none ↦ none
      | some bytes ↦ some (
          if is_some (strstr (text_at b behind) (codes "\r\n\r\n"))
          then true
          else is_some (strstr (text_at b behind) (codes "\n\n")))
    ]
    else some false

-- The last entry of the table that has the name; the pointer stays as it was if none has.
unfoldable pub find_method : List HttpMethod → Bytes → Option HttpMethod → Option HttpMethod
find_method [] name found = found
find_method (m ∷ ms) name found =
    find_method ms name (if same_case m.method name then some m else found)

-- What the request line asks of the protocol.
pub data Version : Type 0 where
  version_1_0 version_1_1 version_other not_http : Version

-- The tests on `httpsp`.
unfoldable pub version_of : Bytes → Version
unfolding starts_with to_lower
version_of httpsp =
    if starts_with (map to_lower (codes "HTTP/")) (map to_lower httpsp)
    then (if starts_with (codes "1.0") (drop 5 httpsp)
        then version_1_0
        else if starts_with (codes "1.1") (drop 5 httpsp)
        then version_1_1
        else version_other)
    else not_http

-- The assignments to `flags` for a version: the defaults first.
unfoldable pub version_flags : Version → Flags → Flags
version_flags version_1_0 f = record f { http_1_1 = not f.http_1_1; http_1_0 = true; close = true }
version_flags version_1_1 f = record f { http_1_0 = false; http_1_1 = true; close = true }
version_flags _ f = record f { http_1_0 = true; close = true }

-- The keep-alive test; `keepalive` is the value of the header, or "Close".
unfoldable pub keep_alive_flags : Bytes → Flags → Flags
keep_alive_flags keepalive f =
    if f.http_1_1
    then (if same_case keepalive (codes "Keep-Alive")
        then record f { close = not f.close }
        else if same_case keepalive (codes "Close")
        then record f { close = true }
        else f)
    else f

-- The query with its question mark, or nothing.
unfoldable pub query_of : Bytes → Bytes
query_of uri = elim (split_at b'?' uri).1 [ none ↦ [] | some rest ↦ b'?' ∷ rest ]

-- The path of the request line, decoded in its own array; `junk` is the decoder's local variable.
unfoldable pub uri_of : ℕ → Bytes → Bytes
unfolding percent_decode_in_place c_str
uri_of junk uri =
    let path = (split_at b'?' uri).0 in
    if same path (codes "/")
    then codes "index.html"
    else (let (array, n) = percent_decode_in_place junk path in c_str (take n array))
