-- ===== src/Request/Located.antt =====
-- What `parse_request` does from the header lines on, where it finds a virtual host and a path.
use mathlib.Core.Option
use sillyweb.Base.{
  ℕ, ◌≡◌, ◌⊎◌, refl, ap, ◌∙◌, Bool, true, false, List, ◌++◌, Option, none, some, elim_some, ◌==◌,
  if◌then◌else◌, Bytes, codes, strstr, arith, inl, inr,
}
use sillyweb.Memory.{Allocator, IsAmple}
use sillyweb.Buffer.{clear_buffer}
use sillyweb.Headers.{Header, sizeof_header, get_header_value}
use sillyweb.Platform.{Platform}
use sillyweb.Service.{Vhost, HttpMethod}
use sillyweb.Client.{Client, Flags}
use sillyweb.Request.Fields.{field_loop, rounds, lines, headers_of, field_loop-lines}
use sillyweb.Request.{is_some, keep_alive_flags, query_of, uri_of}
use sillyweb.Request.Parse.{
  AnyVhost, connection_value, choose_vhost, local_path, resolve, accept, locate_in, set_target,
  parse_fields,
}

-- The virtual host, from the "Host" header or by default, and the path that `realpath` gives there,
-- which does not occur in the text of the CGI root: only a path that does is taken for a program.
pub record IsLocated (os : Platform) (get_vhost : AnyVhost) (default : Option Vhost)
    (hs : List Header) (junk : ℕ) (uri : Bytes) (v : Vhost) (root path : Bytes) (w : os.World)
    : Type 0 where
  pub chosen :
      ((get_header_value hs none (codes "Host") ≡ none) × (default ≡ some v))
      ⊎ ((host : Bytes) × (get_header_value hs none (codes "Host") ≡ some host)
          × (get_vhost host ≡ some v))
  pub has_root : v.document_root ≡ some root
  pub cgi : Bytes
  pub has_cgi : v.cgi_bin_root ≡ some cgi
  pub resolved : os.realpath (os.after_basename (local_path root (uri_of junk uri))) w ≡ some path
  pub no_cgi : is_some (strstr cgi path) ≡ false

choose_vhost-chosen :
    (get_vhost : AnyVhost) (host : Option Bytes) (c : Client) (v : Vhost)
    → c.flags.http_1_1 ≡ true
    → ((host ≡ none) × (c.vhost ≡ some v))
      ⊎ ((name : Bytes) × (host ≡ some name) × (get_vhost name ≡ some v))
    → choose_vhost get_vhost host c ≡ record c { vhost = some v }
unfolding choose_vhost
choose_vhost-chosen get_vhost host c v yes11 (inl (absent, same)) =
    rw absent (ap (λ (o : Option Vhost). record c { vhost = o }) same)
choose_vhost-chosen get_vhost host c v yes11 (inr (name, given, found)) =
    rw given (rw (choose_vhost, yes11, found, ← yes11) refl)

accept-pending :
    (c : Client)
    → c.result_code ≡ 0
    → accept c ≡ record c {
      result_code = 200;
      inputbuffer = record { buffer = none; len = 0 };
      request_parsed = true;
    }
unfolding accept clear_buffer
accept-pending c h =
    ap
      (λ n. record c {
        result_code = n;
        inputbuffer = record { buffer = none; len = 0 };
        request_parsed = true;
      })
      (code c.result_code h)
  where
    code : (n : ℕ) → n ≡ 0 → (if n == 0 then 200 else n) ≡ 200
    code n e = ground arith

resolve-found :
    (path cgi : Bytes) (c : Client)
    → is_some (strstr cgi path) ≡ false
    → resolve (some path) (some cgi) c ≡ some (record c { cleanlocalpath = some path })
unfolding resolve
resolve-found path cgi c h =
    ap
      (λ (b : Bool). some (record c {
        cleanlocalpath = some path;
        is_cgi_request = if b then true else c.is_cgi_request;
      }))
      h

module _ (os : Platform) where
  open os use {World}

  locate_in-found :
      (v : Vhost) (uri root path cgi : Bytes) (c : Client) (w : World)
      → v.document_root ≡ some root
      → v.cgi_bin_root ≡ some cgi
      → os.realpath (os.after_basename (local_path root uri)) w ≡ some path
      → is_some (strstr cgi path) ≡ false
      → c.result_code ≡ 0
      → locate_in os (some v) uri c w
        ≡ some (record c {
          localpath = some (os.after_basename (local_path root uri));
          filename = some (os.basename (local_path root uri));
          cleanlocalpath = some path;
          result_code = 200;
          inputbuffer = record { buffer = none; len = 0 };
          request_parsed = true;
        })
  unfolding locate_in
  locate_in-found v uri root path cgi c w has_root has_cgi resolved no_cgi code =
      let at = local_path root uri in
      let c' : Client = record c {
        localpath = some (os.after_basename at);
        filename = some (os.basename at);
      } in
      elim_some v.document_root _ root has_root
      ∙ ap (λ o. Option.map accept (resolve o v.cgi_bin_root c')) resolved
      ∙ ap (λ o. Option.map accept (resolve (some path) o c')) has_cgi
      ∙ ap (Option.map accept) (resolve-found path cgi c' no_cgi)
      ∙ ap some (accept-pending (record c' { cleanlocalpath = some path }) code)

pub keep_alive_flags-http_1_1 :
    (value : Bytes) (f : Flags) → f.http_1_1 ≡ true → (keep_alive_flags value f).http_1_1 ≡ true
unfolding keep_alive_flags
keep_alive_flags-http_1_1 value f h = ground arith

module _ (os : Platform) (mem : Allocator) (ample : IsAmple mem) (junk : ℕ)
    (get_vhost : AnyVhost) where
  open os use {World}

  -- From the loop over the header lines on.
  pub parse_fields-understood :
      (uri fields : Bytes) (c : Client) (m : HttpMethod) (v : Vhost) (root path : Bytes) (w : World)
      → c.flags.http_1_1 ≡ true
      → c.result_code ≡ 0
      → IsLocated os get_vhost c.vhost
          (c.inbound_headers ++ headers_of (lines fields))
          junk
          uri
          v
          root
          path
          w
      → parse_fields os mem junk get_vhost uri (some fields) c w
        ≡ some (record c {
          inbound_headers = c.inbound_headers ++ headers_of (lines fields);
          query = some (query_of uri);
          uri = some (uri_of junk uri);
          flags =
              keep_alive_flags
                (connection_value (c.inbound_headers ++ headers_of (lines fields)))
                c.flags;
          vhost = some v;
          localpath = some (os.after_basename (local_path root (uri_of junk uri)));
          filename = some (os.basename (local_path root (uri_of junk uri)));
          cleanlocalpath = some path;
          result_code = 200;
          inputbuffer = record { buffer = none; len = 0 };
          request_parsed = true;
        })
  unfolding parse_fields set_target
  parse_fields-understood uri fields c m v root path w yes11 code h =
      let hs = c.inbound_headers ++ headers_of (lines fields) in
      let target : Client = record c {
        inbound_headers = hs;
        query = some (query_of uri);
        uri = some (uri_of junk uri);
        flags = keep_alive_flags (connection_value hs) c.flags;
      } in
      elim_some (field_loop mem (rounds (some fields)) (some fields) c.inbound_headers) _ hs
        (field_loop-lines mem (ample.calloc_ample sizeof_header) fields c.inbound_headers)
      ∙ ap (λ (k : Client). locate_in os k.vhost (uri_of junk uri) k w)
          (choose_vhost-chosen get_vhost (get_header_value hs none (codes "Host")) target v
            (keep_alive_flags-http_1_1 (connection_value hs) c.flags yes11) h.chosen)
      ∙ locate_in-found os v (uri_of junk uri) root path h.cgi (record target { vhost = some v }) w
          h.has_root h.has_cgi h.resolved h.no_cgi code
