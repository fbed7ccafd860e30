-- ===== src/Request/Total.antt =====
-- When `parse_request` reads through no NULL pointer.
use mathlib.Core.Option
use sillyweb.Base.{
  ℕ, ◌≡◌, ◌≢◌, refl, Option, none, some, Bytes, codes, Bool-cases, Option-cases, inl, inr,
}
use native.Mathlib.Nat.{le_refl}
use sillyweb.Memory.{Allocator}
use sillyweb.Headers.{get_header_value}
use sillyweb.Platform.{Platform}
use sillyweb.Service.{Vhost, method_handlers}
use sillyweb.Client.{Client}
use sillyweb.Request.Line.{split_at, scan_request_line, RequestLine}
use sillyweb.Request.Fields.{rounds, field_loop_total}
use sillyweb.Request.{
  text_at, find_method, Version, version_1_0, version_1_1, version_other, not_http, version_of,
  version_flags, uri_of,
}
use sillyweb.Request.Parse.{
  AnyVhost, choose_vhost, local_path, resolve, accept, locate_in, set_target, parse_fields,
  parse_method, parse_version, parse_line, greet, parse_request,
}

-- The pointer is not NULL, and neither are the two roots that the handlers read.
abbrev pub IsServable : Option Vhost → Type 0
IsServable none = ⊥
IsServable (some v) = (v.document_root ≢ none) × (v.cgi_bin_root ≢ none)

some_of {ℓ} : {A : Type ℓ} (o : Option A) → o ≢ none → (a : A) × (o ≡ some a)
some_of none h = absurd (h refl)
some_of (some a) h = (a, refl)

choose_vhost-IsServable :
    (get_vhost : AnyVhost) (host : Option Bytes) (c : Client)
    → ((name : Bytes) → (v : Vhost) → get_vhost name ≡ some v → IsServable (some v))
    → IsServable c.vhost
    → IsServable (choose_vhost get_vhost host c).vhost
unfolding choose_vhost
choose_vhost-IsServable get_vhost none c g h = h
choose_vhost-IsServable get_vhost (some host) c g h = elim (Bool-cases c.flags.http_1_1) [
  | inr no11 ↦ rw no11 h
  | inl yes11 ↦ elim (Option-cases (get_vhost host)) [
    | inl e ↦ rw (yes11, e) h
    | inr (v, e) ↦ rw (yes11, e) (g host v e)
  ]
]

abbrev Returns : Option Client → Type 0
Returns r = (c : Client) × (r ≡ some c)

resolve_total :
    (path cgi : Option Bytes) (c : Client)
    → cgi ≢ none
    → Returns (Option.map accept (resolve path cgi c))
unfolding resolve
resolve_total none cgi c h = (_, refl)
resolve_total (some path) none c h = absurd (h refl)
resolve_total (some path) (some cgi) c h = (_, refl)

module _ (os : Platform) where
  open os use {World}

  locate_in_total :
      (v : Option Vhost) (uri : Bytes) (c : Client) (w : World)
      → IsServable v
      → Returns (locate_in os v uri c w)
  unfolding locate_in
  locate_in_total none uri c w h = absurd h
  locate_in_total (some v) uri c w h =
      let (root, e) = some_of v.document_root h.0 in
      let path = local_path root uri in
      let left = os.after_basename path in
      rw (locate_in, e)
        (resolve_total (os.realpath left w) v.cgi_bin_root
          (record c { localpath = some left; filename = some (os.basename path) }) h.1)

module _ (os : Platform) (mem : Allocator) (junk : ℕ) (get_vhost : AnyVhost)
    (any_servable : (name : Bytes)
      → (v : Vhost) → get_vhost name ≡ some v
      → IsServable (some v)) where
  open os use {World}

  parse_fields_total :
      (uri : Bytes) (rest : Option Bytes) (c : Client) (w : World)
      → IsServable c.vhost
      → Returns (parse_fields os mem junk get_vhost uri rest c w)
  unfolding parse_fields
  parse_fields_total uri rest c w h =
      let (hs, e) =
        field_loop_total mem (rounds rest) rest c.inbound_headers (le_refl (rounds rest)) in
      let c' = set_target junk get_vhost uri (record c { inbound_headers = hs }) in
      rw (parse_fields, e)
        (locate_in_total os c'.vhost (uri_of junk uri) c' w (
          choose_vhost-IsServable get_vhost (get_header_value hs none (codes "Host")) _ any_servable
            h))

  parse_method_total :
      (line : RequestLine) (rest : Option Bytes) (c : Client) (w : World)
      → IsServable c.vhost
      → Returns (parse_method os mem junk get_vhost line rest c w)
  unfolding parse_method
  parse_method_total line rest c w h =
      elim (Option-cases (find_method method_handlers line.method c.method)) [
        | inl e ↦ rw (parse_method, e) (_, refl)
        | inr (m, e) ↦
            rw (parse_method, e)
              (parse_fields_total line.uri rest (record c { method = some m }) w h)
      ]

  parse_version_total :
      (v : Version) (line : RequestLine) (rest : Option Bytes) (c : Client) (w : World)
      → IsServable c.vhost
      → Returns (parse_version os mem junk get_vhost v line rest c w)
  unfolding parse_version
  parse_version_total version_1_0 line rest c w h = parse_method_total line rest c w h
  parse_version_total version_1_1 line rest c w h = parse_method_total line rest c w h
  parse_version_total version_other line rest c w h = (_, refl)
  parse_version_total not_http line rest c w h = (_, refl)

  parse_line_total :
      (line : Option RequestLine) (rest : Option Bytes) (c : Client) (w : World)
      → IsServable c.vhost
      → Returns (parse_line os mem junk get_vhost line rest c w)
  unfolding parse_line
  parse_line_total none rest c w h = (_, refl)
  parse_line_total (some line) rest c w h =
      parse_version_total (version_of line.httpsp) line rest
        (record c { flags = version_flags (version_of line.httpsp) c.flags }) w h

  pub parse_request_total :
      (behind : Bytes) (c : Client) (w : World)
      → c.inputbuffer.buffer ≢ none
      → IsServable c.vhost
      → Returns (parse_request os mem junk get_vhost behind c w)
  unfolding parse_request greet
  parse_request_total behind c w filled h =
      let (b, e) = some_of c.inputbuffer.buffer filled in
      let (line, rest) = split_at b'\n' (text_at c.inputbuffer behind) in
      rw (parse_request, e) (parse_line_total (scan_request_line line) rest _ w h)
