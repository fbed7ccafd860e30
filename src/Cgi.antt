-- ===== src/Cgi.antt =====
-- main.c: what `dispatch_request` puts together for a CGI program.
use sillyweb.Base.{
  ℕ, zero, suc, ◌+◌, ◌-◌, true, false, List, [], ◌∷◌, ◌++◌, Option, none, some, length, take, set,
  ltb, ◌==◌, if◌then◌else◌, Bytes, codes, pos,
}
use sillyweb.Headers.{get_header_value}
use sillyweb.Log.{shown}
use sillyweb.Service.{Vhost}
use sillyweb.Client.{Client}
use sillyweb.Request.Parse.{server_version_string}
use sillyweb.Transfer.{int_text}

abbrev pub spaces : ℕ → Bytes
spaces zero = []
spaces (suc n) = b' ' ∷ spaces n

-- "%1023s": filled up on the left.
unfoldable pub padded : Bytes → Bytes
padded text = spaces (1023 - length text) ++ text

-- `snprintf(buff, 1024, …)` and `strdup`
abbrev pub cgi_entry : Bytes → Bytes → Bytes
cgi_entry name text = take 1023 (name ++ (b'=' ∷ text))

-- The value of a request header, or "None".
abbrev pub header_or_none : Client → Bytes → Bytes
header_or_none c name = shown (get_header_value c.inbound_headers (some (codes "None")) name)

-- The strings that go into `argp`, in their order.
unfoldable pub cgi_environment : Client → Vhost → List Bytes
unfolding padded int_text get_header_value
cgi_environment c v =
    cgi_entry (codes "DOCUMENT_ROOT") (shown v.document_root)
    ∷ cgi_entry (codes "HTTP_COOKIE") (padded (header_or_none c (codes "Cookie")))
    ∷ cgi_entry (codes "HTTP_HOST") (shown v.hostname)
    ∷ cgi_entry (codes "HTTP_REFERER") (header_or_none c (codes "Referer"))
    ∷ cgi_entry (codes "HTTP_USER_AGENT") (header_or_none c (codes "User-Agent"))
    ∷ cgi_entry (codes "HTTPS") (if c.server.ssl == 0 then codes "off" else codes "on")
    ∷ cgi_entry (codes "PATH") (shown v.document_root)
    ∷ cgi_entry (codes "QUERY_STRING") (shown c.query)
    ∷ cgi_entry (codes "REMOTE_ADDR") (shown c.ipaddrstr)
    ∷ cgi_entry (codes "REMOTE_PORT") (int_text (pos c.srcport))
    ∷ cgi_entry (codes "REMOTE_USER") (codes "nobody")
    ∷ cgi_entry (codes "SCRIPT_FILENAME") (shown c.filename)
    ∷ cgi_entry (codes "SCRIPT_NAME") (shown c.filename)
    ∷ cgi_entry (codes "SERVER_ADMIN") (shown v.admin_email)
    ∷ cgi_entry (codes "SERVER_NAME") (shown v.hostname)
    ∷ cgi_entry (codes "SERVER_PORT") (int_text (pos c.server.sin_port))
    ∷ cgi_entry (codes "SERVER_SOFTWARE") server_version_string
    ∷ []

-- `argp[i++] = …` for each string, and `argp[i] = 0`; `none` is a write outside the array.
unfoldable pub store_from : List (Option Bytes) → ℕ → List Bytes → Option (List (Option Bytes))
store_from argp i [] = if ltb i (length argp) then some (set argp i none) else none
store_from argp i (s ∷ ss) = elim (ltb i (length argp)) [
  | true ↦ store_from (set argp i (some s)) (i + 1) ss
  | false ↦ none
]

-- `free(buff)`: `buff` is an array and no block, so this is a fault whatever it holds.
unfoldable pub free_array {ℓ} : {A : Type ℓ} → List (Option Bytes) → Option A
free_array argp = none

-- The branch of a CGI request. `i` is not initialised, and neither is the block `argp`; what stands
-- behind `free(buff)` is not reached.
unfoldable pub run_cgi {ℓ} : {A : Type ℓ} → List (Option Bytes) → ℕ → Client → Vhost → Option A
unfolding cgi_environment store_from free_array
run_cgi argp i c v = elim (store_from argp i (cgi_environment c v)) [
  | none ↦ none
  | some argp' ↦ free_array argp'
]
