-- ===== src/Response.antt =====
-- main.c: `client_send_response_code` and `client_send_headers`.
pub mod Stream
use sillyweb.Base.{
  ℕ, ◌+◌, Bool, true, false, List, [], ◌∷◌, ◌++◌, Option, none, some, length, ltb, if◌then◌else◌,
  Bytes, codes, decimal,
}
use sillyweb.Memory.{Allocator}
use sillyweb.Headers.{Header, add_header}
use sillyweb.Http.{get_http_result_text}
use sillyweb.Platform.{Platform}
use sillyweb.Transport.{transport_send}
use sillyweb.Client.{Client}

module _ (os : Platform) where
  open os use {World}

  -- `transport->send` with its result dropped
  unfoldable pub send_text : Client → Bytes → World → World
  send_text c text w = (transport_send os c.server.transport c text w).1

  -- `l = snprintf(buff, size, …)`, and a send of `l` bytes from `buff`, which are all there only if
  -- the text was not cut; `none` is a read behind the array.
  unfoldable pub print_and_send : ℕ → Client → Bytes → World → Option World
  unfolding send_text
  print_and_send size c text w = if ltb (length text) size then some (send_text c text w) else none

-- The protocol in front of the code.
unfoldable pub version_text : Client → Option Bytes
version_text c =
    if c.flags.http_1_0
    then some (codes "HTTP/1.0 ")
    else if c.flags.http_1_1
    then some (codes "HTTP/1.1 ")
    else none

-- "%s: %s\r\n"
abbrev pub header_text : Header → Bytes
header_text h = h.header_name ++ (codes ": " ++ (h.header_value ++ codes "\r\n"))

-- The size of the block: `strlen` of both strings and of the format, and one.
abbrev pub header_size : Header → ℕ
header_size h = length h.header_name + length h.header_value + length (codes "%s: %s\r\n") + 1

-- The header that tells whether the connection stays.
unfoldable pub add_connection : Allocator → Client → Client
add_connection mem c = record c {
  outbound_headers =
      add_header mem c.outbound_headers (codes "Connection")
        (if c.flags.close then codes "Close" else codes "Keep-Alive");
}

infixl 5 ◌>>=◌
abbrev pub ◌>>=◌ {ℓ} : {W : Type ℓ} → Option W → (W → Option W) → Option W
none >>= f = none
some w >>= f = f w

module _ (os : Platform) where
  open os use {World}

  pub send_version : Client → World → Option World
  send_version c w = elim (version_text c) [
    | none ↦ some w
    | some text ↦ print_and_send os 256 c text w
  ]

  -- The text of the code; `none` is a search that left the table.
  pub send_result_text : Client → World → Option World
  send_result_text c w = elim (get_http_result_text c.result_code) [
    | none ↦ none
    | some text ↦ print_and_send os 256 c text w
  ]

  unfoldable pub client_send_response_code : Client → World → Option World
  unfolding send_version send_result_text
  client_send_response_code c w = do
    w₁ ← send_version c w
    w₂ ← print_and_send os 256 c (decimal c.result_code ++ codes " ") w₁
    w₃ ← send_result_text c w₂
    print_and_send os 256 c (codes "\r\n") w₃

  -- The loop over the headers; one whose block is not to be had is left out.
  unfoldable pub send_headers_from : Allocator → List Header → Client → World → Option World
  send_headers_from mem [] c w = some w
  send_headers_from mem (h ∷ hs) c w =
      elim (if mem.malloc (header_size h)
        then print_and_send os (header_size h) c (header_text h) w
        else some w) [ none ↦ none | some w' ↦ send_headers_from mem hs c w' ]

  unfoldable pub client_send_headers : Allocator → Client → World → Option (Client × World)
  client_send_headers mem c w =
      let c' = add_connection mem c in
      elim (send_headers_from mem c'.outbound_headers c' w) [
        | none ↦ none
        | some w' ↦ some (c', send_text os c' (codes "\r\n") w')
      ]
