-- ===== src/Request/Parse.antt =====
-- `parse_request` of main.c. Every path returns the `result_code` of the client that it leaves.
use mathlib.Core.Option
use sillyweb.Base.{
  ℕ, zero, suc, true, List, [], ◌∷◌, ◌++◌, Option, none, some, take, ◌==◌, if◌then◌else◌, Bytes,
  codes, strstr,
}
use sillyweb.Memory.{Allocator}
use sillyweb.Buffer.{Buffer, clear_buffer}
use sillyweb.Headers.{Header, add_header, get_header_value}
use sillyweb.Http.{
  http_result_ok, http_result_not_found, http_result_bad_request, http_result_not_implemented,
  http_result_http_version_not_supported,
}
use sillyweb.Platform.{Platform}
use sillyweb.Util.{sctime}
use sillyweb.Service.{Vhost, method_handlers}
use sillyweb.Client.{Flags, Client}
use sillyweb.Request.Line.{split_at, scan_request_line, RequestLine}
use sillyweb.Request.Fields.{field_loop, rounds}
use sillyweb.Request.{
  text_at, is_some, find_method, Version, version_1_0, version_1_1, version_other, not_http,
  version_of, version_flags, keep_alive_flags, query_of, uri_of,
}

abbrev pub server_version_string : Bytes
server_version_string = codes "Stoned v.1 (something spelled correctly)"

-- What `strsep` leaves in the block: a NUL for the first newline.
unfoldable pub cut_line : Bytes → Bytes
cut_line [] = []
cut_line (zero ∷ cs) = zero ∷ cs
cut_line (suc c ∷ cs) = if suc c == b'\n' then 0 ∷ cs else suc c ∷ cut_line cs

unfoldable pub set_code : ℕ → Client → Client
set_code code c = record c { result_code = code }

-- The value of "Connection", or "Close".
abbrev pub connection_value : List Header → Bytes
connection_value hs = elim (get_header_value hs (some (codes "Close")) (codes "Connection")) [
  | none ↦ []
  | some v ↦ v
]

-- What `get_vhost` returns for a name: NULL or a virtual host. It has no `return`, so a compiled
-- program may get a pointer to neither, which is not modelled.
abbrev pub AnyVhost : Type 0
AnyVhost = Bytes → Option Vhost

-- the block on `vhoststr`
unfoldable pub choose_vhost : AnyVhost → Option Bytes → Client → Client
unfolding set_code
choose_vhost get_vhost none c = c
choose_vhost get_vhost (some host) c =
    if c.flags.http_1_1
    then elim (get_vhost host) [
      | some v ↦ record c { vhost = some v }
      | none ↦ set_code http_result_not_found c
    ]
    else c

-- `snprintf(buffer, 1024, "%s/%s", root, uri)`
abbrev pub local_path : Bytes → Bytes → Bytes
local_path root uri = take 1023 (root ++ (b'/' ∷ uri))

-- `realpath` and what hangs on it; a NULL root of the programs is a fault.
unfoldable pub resolve : Option Bytes → Option Bytes → Client → Option Client
unfolding set_code is_some strstr
resolve none cgi c = some (set_code http_result_not_found (record c { cleanlocalpath = none }))
resolve (some path) none c = none
resolve (some path) (some cgi) c = some (record c {
  cleanlocalpath = some path;
  is_cgi_request = if is_some (strstr cgi path) then true else c.is_cgi_request;
})

-- The end of a request that was understood.
unfoldable pub accept : Client → Client
unfolding clear_buffer
accept c = record c {
  result_code = if c.result_code == 0 then http_result_ok else c.result_code;
  inputbuffer = clear_buffer c.inputbuffer;
  request_parsed = true;
}

module _ (os : Platform) where
  open os use {World}

  -- From `localpath` on; a NULL `vhost` or `document_root` is a fault.
  unfoldable pub locate_in : Option Vhost → Bytes → Client → World → Option Client
  unfolding accept resolve
  locate_in none uri c w = none
  locate_in (some v) uri c w = elim v.document_root [
    | none ↦ none
    | some root ↦
        let path = local_path root uri in
        let left = os.after_basename path in
        Option.map accept (
          resolve (os.realpath left w) v.cgi_bin_root
            (record c { localpath = some left; filename = some (os.basename path) }))
  ]

module _ (junk : ℕ) (get_vhost : AnyVhost) where
  -- From the query string to the virtual host.
  unfoldable pub set_target : Bytes → Client → Client
  unfolding keep_alive_flags choose_vhost query_of uri_of
  set_target uri c =
      choose_vhost get_vhost (get_header_value c.inbound_headers none (codes "Host")) (record c {
        query = some (query_of uri);
        uri = some (uri_of junk uri);
        flags = keep_alive_flags (connection_value c.inbound_headers) c.flags;
      })

module _ (os : Platform) (mem : Allocator) (junk : ℕ) (get_vhost : AnyVhost) where
  open os use {World}

  -- The block under `if(client->method)`; `rest` is what follows the request line.
  unfoldable pub parse_fields : Bytes → Option Bytes → Client → World → Option Client
  unfolding locate_in set_target
  parse_fields uri rest c w = elim (field_loop mem (rounds rest) rest c.inbound_headers) [
    | none ↦ none
    | some headers ↦
        let c' = set_target junk get_vhost uri (record c { inbound_headers = headers }) in
        locate_in os c'.vhost (uri_of junk uri) c' w
  ]

  unfoldable pub parse_method : RequestLine → Option Bytes → Client → World → Option Client
  unfolding parse_fields set_code
  parse_method line rest c w =
      let found = find_method method_handlers line.method c.method in
      elim found [
        | none ↦ some (set_code http_result_not_implemented c)
        | some m ↦ parse_fields line.uri rest (record c { method = some m }) w
      ]

  -- The tests on the version, after which `flags` are set.
  unfoldable pub parse_version :
      Version → RequestLine → Option Bytes → Client → World → Option Client
  unfolding parse_method set_code
  parse_version version_1_0 line rest c w = parse_method line rest c w
  parse_version version_1_1 line rest c w = parse_method line rest c w
  parse_version version_other line rest c w =
      some (set_code http_result_http_version_not_supported c)
  parse_version not_http line rest c w = some (set_code http_result_bad_request c)

  unfoldable pub parse_line : Option RequestLine → Option Bytes → Client → World → Option Client
  unfolding parse_version set_code version_flags version_of
  parse_line none rest c w =
      some (set_code http_result_bad_request (record c { flags = record f { close = true } }))
    where
      f : Flags
      f = c.flags
  parse_line (some line) rest c w =
      let v = version_of line.httpsp in
      parse_version v line rest (record c { flags = version_flags v c.flags }) w

  -- The headers that every answer has, put in first.
  unfoldable pub greet : Client → World → Client
  greet c w = record c {
    outbound_headers =
        add_header mem (add_header mem c.outbound_headers (codes "Server") server_version_string)
          (codes "Date") (sctime os 0 w);
  }

  -- `none` is an access through NULL. `behind` is the memory behind the input buffer's block.
  unfoldable pub parse_request : Bytes → Client → World → Option Client
  unfolding parse_line greet cut_line
  parse_request behind c w = elim c.inputbuffer.buffer [
    | none ↦ none
    | some b ↦
        let (line, rest) = split_at b'\n' (text_at c.inputbuffer behind) in
        let c' = greet c w in
        parse_line (scan_request_line line) rest
          (record c' { inputbuffer = record i { buffer = some (cut_line b) } }) w
  ]
    where
      i : Buffer
      i = c.inputbuffer
