-- ===== src/Request/Codes.antt =====
-- The result codes of `parse_request`.
use mathlib.Core.Option
use mathlib.Core.Path.{subst}
use sillyweb.Base.{
  ℕ, ◌≡◌, Option, none, some, ◌==◌, if◌then◌else◌, Bytes, codes, Bool-cases, Option-cases, inl, inr,
}
use sillyweb.Memory.{Allocator}
use sillyweb.Headers.{get_header_value}
use sillyweb.Platform.{Platform}
use sillyweb.Service.{Vhost, method_handlers}
use sillyweb.Client.{Client}
use sillyweb.Request.Line.{split_at, scan_request_line, RequestLine}
use sillyweb.Request.Fields.{field_loop, rounds}
use sillyweb.Request.{
  text_at, find_method, Version, version_1_0, version_1_1, version_other, not_http, version_of,
  version_flags, uri_of, query_of, keep_alive_flags,
}
use sillyweb.Request.Parse.{
  AnyVhost, connection_value, set_code, choose_vhost, local_path, resolve, accept, locate_in,
  set_target, parse_fields, parse_method, parse_version, parse_line, greet, parse_request,
}

abbrev Holds : (ℕ → Type 0) → Option Client → Type 0
Holds Q none = Unit
Holds Q (some c) = Q c.result_code

-- What `accept` makes of a code.
abbrev pub accepted : ℕ → ℕ
accepted n = if n == 0 then 200 else n

-- `P` is kept up to `accept`, and `Q` holds of every code that is returned.
pub record IsClosed (P Q : ℕ → Type 0) : Type 0 where
  pub not_found : P 404
  pub bad_request : Q 400
  pub not_implemented : Q 501
  pub not_supported : Q 505
  pub done : (n : ℕ) → P n → Q (accepted n)

module _ {P Q : ℕ → Type 0} (closed : IsClosed P Q) where
  choose_vhost-keeps :
      (get_vhost : AnyVhost) (host : Option Bytes) (c : Client)
      → P c.result_code
      → P (choose_vhost get_vhost host c).result_code
  unfolding choose_vhost
  choose_vhost-keeps get_vhost none c h = h
  choose_vhost-keeps get_vhost (some host) c h = elim (Bool-cases c.flags.http_1_1) [
    | inr no11 ↦ rw no11 h
    | inl yes11 ↦ elim (Option-cases (get_vhost host)) [
      | inl e ↦ rw (yes11, e) closed.not_found
      | inr (v, e) ↦ rw (yes11, e) h
    ]
  ]

  set_target-keeps :
      (junk : ℕ) (get_vhost : AnyVhost) (uri : Bytes) (c : Client)
      → P c.result_code
      → P (set_target junk get_vhost uri c).result_code
  unfolding set_target
  set_target-keeps junk get_vhost uri c h =
      choose_vhost-keeps get_vhost (get_header_value c.inbound_headers none (codes "Host"))
        (record c {
          query = some (query_of uri);
          uri = some (uri_of junk uri);
          flags = keep_alive_flags (connection_value c.inbound_headers) c.flags;
        })
        h

  resolve-keeps :
      (path cgi : Option Bytes) (c : Client)
      → P c.result_code
      → Holds Q (Option.map accept (resolve path cgi c))
  unfolding resolve accept
  resolve-keeps none cgi c h = closed.done 404 closed.not_found
  resolve-keeps (some path) none c h = tt
  resolve-keeps (some path) (some cgi) c h = closed.done c.result_code h

  module _ (os : Platform) where
    open os use {World}

    locate_in-keeps :
        (v : Option Vhost) (uri : Bytes) (c : Client) (w : World)
        → P c.result_code
        → Holds Q (locate_in os v uri c w)
    unfolding locate_in
    locate_in-keeps none uri c w h = tt
    locate_in-keeps (some v) uri c w h = elim (Option-cases v.document_root) [
      | inl e ↦ rw (locate_in, e) tt
      | inr (root, e) ↦
          rw (locate_in, e)
            (resolve-keeps (os.realpath (os.after_basename (local_path root uri)) w) v.cgi_bin_root
              _ h)
    ]

  module _ (os : Platform) (mem : Allocator) (junk : ℕ) (get_vhost : AnyVhost) where
    open os use {World}

    parse_fields-keeps :
        (uri : Bytes) (rest : Option Bytes) (c : Client) (w : World)
        → P c.result_code
        → Holds Q (parse_fields os mem junk get_vhost uri rest c w)
    unfolding parse_fields
    parse_fields-keeps uri rest c w h =
        elim (Option-cases (field_loop mem (rounds rest) rest c.inbound_headers)) [
          | inl e ↦ rw (parse_fields, e) tt
          | inr (hs, e) ↦
              let c' = set_target junk get_vhost uri (record c { inbound_headers = hs }) in
              rw (parse_fields, e)
                (locate_in-keeps os c'.vhost (uri_of junk uri) c' w
                  (set_target-keeps junk get_vhost uri (record c { inbound_headers = hs }) h))
        ]

    parse_method-keeps :
        (line : RequestLine) (rest : Option Bytes) (c : Client) (w : World)
        → P c.result_code
        → Holds Q (parse_method os mem junk get_vhost line rest c w)
    unfolding parse_method set_code
    parse_method-keeps line rest c w h =
        elim (Option-cases (find_method method_handlers line.method c.method)) [
          | inl e ↦ rw (parse_method, e) closed.not_implemented
          | inr (m, e) ↦
              rw (parse_method, e)
                (parse_fields-keeps line.uri rest (record c { method = some m }) w h)
        ]

    parse_version-keeps :
        (v : Version) (line : RequestLine) (rest : Option Bytes) (c : Client) (w : World)
        → P c.result_code
        → Holds Q (parse_version os mem junk get_vhost v line rest c w)
    unfolding parse_version
    parse_version-keeps version_1_0 line rest c w h = parse_method-keeps line rest c w h
    parse_version-keeps version_1_1 line rest c w h = parse_method-keeps line rest c w h
    parse_version-keeps version_other line rest c w h = closed.not_supported
    parse_version-keeps not_http line rest c w h = closed.bad_request

    parse_line-keeps :
        (line : Option RequestLine) (rest : Option Bytes) (c : Client) (w : World)
        → P c.result_code
        → Holds Q (parse_line os mem junk get_vhost line rest c w)
    unfolding parse_line
    parse_line-keeps none rest c w h = closed.bad_request
    parse_line-keeps (some line) rest c w h =
        parse_version-keeps (version_of line.httpsp) line rest
          (record c { flags = version_flags (version_of line.httpsp) c.flags }) w h

    parse_request-Holds :
        (behind : Bytes) (c : Client) (w : World)
        → P c.result_code
        → Holds Q (parse_request os mem junk get_vhost behind c w)
    unfolding parse_request greet
    parse_request-Holds behind c w h = elim (Option-cases c.inputbuffer.buffer) [
      | inl e ↦ rw (parse_request, e) tt
      | inr (b, e) ↦
          let (line, rest) = split_at b'\n' (text_at c.inputbuffer behind) in
          rw (parse_request, e) (parse_line-keeps (scan_request_line line) rest _ w h)
    ]

    -- Whatever is kept up to the last step holds of the code that is returned.
    pub parse_request-keeps :
        (behind : Bytes) (c c' : Client) (w : World)
        → P c.result_code
        → parse_request os mem junk get_vhost behind c w ≡ some c'
        → Q c'.result_code
    parse_request-keeps behind c c' w h e = subst (Holds Q) e (parse_request-Holds behind c w h)
