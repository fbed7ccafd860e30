-- ===== src/Request/Understood.antt =====
-- What `parse_request` makes of a request of HTTP/1.1 that it understands.
use sillyweb.Base.{
  ℕ, ◌≡◌, ◌≢◌, refl, sym, ap, ◌∙◌, true, false, List, [], ◌∷◌, ◌++◌, All, All-append, Option, none,
  some, elim_some, Bytes, codes, is_space, arith, starts_with, to_lower, append_assoc,
}
use sillyweb.Memory.{Allocator, IsAmple}
use sillyweb.Buffer.{Buffer}
use sillyweb.Headers.{Header, add_header, sizeof_header}
use sillyweb.Platform.{Platform}
use sillyweb.Util.{sctime}
use sillyweb.Service.{Vhost, HttpMethod, method_handlers}
use sillyweb.Client.{Client, Flags}
use sillyweb.Request.Line.{split_at, scan_request_line, FitsWord, IsWord, scan_request_line_words}
use sillyweb.Request.Fields.{lines, headers_of}
use sillyweb.Request.{
  text_at, find_method, version_of, version_flags, keep_alive_flags, query_of, uri_of,
}
use sillyweb.Request.Located.{IsLocated, parse_fields-understood}
use sillyweb.Request.Parse.{
  AnyVhost, server_version_string, connection_value, local_path, parse_fields, parse_method,
  parse_version, parse_line, greet, cut_line, parse_request, set_code,
}

protocol-FitsWord : FitsWord 20 (codes "HTTP/1.1")
unfolding is_space
protocol-FitsWord =
    (omega arith, omega arith, (refl, (refl, (refl, (refl, (refl, (refl, (refl, (refl, tt)))))))))

split_at-first :
    (d : ℕ) (s rest : Bytes) → All (λ c. c ≢ d) s → split_at d (s ++ (d ∷ rest)) ≡ (s, some rest)
unfolding split_at
split_at-first d [] rest h = ground arith
split_at-first d (c ∷ s) rest h = ground (arith, split_at-first d s rest h.1)

word-no_newline : (s : Bytes) → IsWord s → All (λ c. c ≢ b'\n') s
unfolding is_space
word-no_newline [] h = tt
word-no_newline (c ∷ s) h = (apart h.0, word-no_newline s h.1)
  where
    apart : is_space c ≡ false → c ≢ b'\n'
    apart space e = cc (sym space ∙ ap is_space e)

-- A request of HTTP/1.1, up to its first newline.
abbrev pub line_of : Bytes → Bytes → Bytes
line_of method uri = method ++ (b' ' ∷ (uri ++ (b' ' ∷ (codes "HTTP/1.1" ++ b'\r' ∷ []))))

line-no_newline :
    (method uri : Bytes) → IsWord method → IsWord uri → All (λ c. c ≢ b'\n') (line_of method uri)
line-no_newline method uri m u =
    All-append (λ c. c ≢ b'\n') method _ (word-no_newline method m)
      ((λ e. omega arith), All-append (λ c. c ≢ b'\n') uri _ (word-no_newline uri u) (omega arith))

-- The request that the input buffer holds.
pub record IsRequest (c : Client) (behind method uri fields : Bytes) (m : HttpMethod) : Type 0 where
  pub bytes : Bytes
  pub has_block : c.inputbuffer.buffer ≡ some bytes
  pub has_text : text_at c.inputbuffer behind ≡ line_of method uri ++ (b'\n' ∷ fields)
  pub method_fits : FitsWord 20 method
  pub uri_fits : FitsWord 1024 uri
  pub known : find_method method_handlers method c.method ≡ some m
  pub no_code : c.result_code ≡ 0

-- The headers of every answer.
abbrev pub greeting : (os : Platform) → os.World → List Header
greeting os w =
    record { header_name = codes "Server"; header_value = server_version_string }
    ∷ record { header_name = codes "Date"; header_value = sctime os 0 w }
    ∷ []

-- The flags of HTTP/1.1, and what a "Connection" header makes of them.
abbrev pub flags_of : Client → List Header → Flags
flags_of c hs =
    keep_alive_flags (connection_value hs)
      (record f { http_1_0 = false; http_1_1 = true; close = true })
  where
    f : Flags
    f = c.flags

-- The client that `parse_request` leaves.
abbrev pub understood :
    (os : Platform)
    → Client
    → HttpMethod
    → List Header
    → ℕ
    → Bytes
    → Vhost
    → Bytes
    → Bytes
    → os.World
    → Client
understood os c m hs junk uri v root path w = record c {
  outbound_headers = c.outbound_headers ++ greeting os w;
  inputbuffer = record { buffer = none; len = 0 };
  method = some m;
  inbound_headers = hs;
  query = some (query_of uri);
  uri = some (uri_of junk uri);
  flags = flags_of c hs;
  vhost = some v;
  localpath = some (os.after_basename (local_path root (uri_of junk uri)));
  filename = some (os.basename (local_path root (uri_of junk uri)));
  cleanlocalpath = some path;
  result_code = 200;
  request_parsed = true;
}

module _ (os : Platform) (mem : Allocator) (ample : IsAmple mem) (junk : ℕ)
    (get_vhost : AnyVhost) where
  open os use {World}

  -- On a client with no result code, while there is memory: a request line of HTTP/1.1 that has a
  -- method of the table and a URI that fits, one space between the words and CR LF at its end is
  -- understood, whatever header lines follow, if a virtual host is found and has both roots, and
  -- `realpath` finds a path whose text does not occur in that of the CGI root, which is the test
  -- for a CGI program. `parse_request` then leaves the code 200, the method, the URI, the query,
  -- the flags, the virtual host, the paths, and the headers of the lines in their order behind
  -- those there were; it puts "Server" and "Date" behind the outbound headers, empties the input
  -- buffer, and changes nothing else.
  pub parse_request-understood :
      (behind method uri fields : Bytes) (c : Client) (m : HttpMethod) (v : Vhost)
      (root path : Bytes) (w : World)
      → IsRequest c behind method uri fields m
      → IsLocated os get_vhost c.vhost
          (c.inbound_headers ++ headers_of (lines fields))
          junk
          uri
          v
          root
          path
          w
      → parse_request os mem junk get_vhost behind c w
        ≡ some (
            understood os c m
              (c.inbound_headers ++ headers_of (lines fields))
              junk
              uri
              v
              root
              path
              w)
  unfolding parse_request greet add_header parse_line parse_version parse_method version_of
      version_flags starts_with to_lower is_space
  parse_request-understood behind method uri fields c m v root path w h located =
      let input : Buffer = c.inputbuffer in
      let old_flags : Flags = c.flags in
      let split : split_at b'\n' (text_at c.inputbuffer behind)
          ≡ (line_of method uri, some fields) =
        ap (split_at b'\n') h.has_text
        ∙ split_at-first b'\n' (line_of method uri) fields
            (line-no_newline method uri h.method_fits.2 h.uri_fits.2) in
      let words : scan_request_line (line_of method uri)
          ≡ some (record { method = method; uri = uri; httpsp = codes "HTTP/1.1" }) =
        scan_request_line_words method uri (codes "HTTP/1.1") b'\r' [] h.method_fits h.uri_fits
          protocol-FitsWord refl in
      let left =
        understood os c m (c.inbound_headers ++ headers_of (lines fields)) junk uri v root path w in
      let started : Client = record (greet os mem junk get_vhost c w) {
        inputbuffer = record input { buffer = some (cut_line h.bytes) };
      } in
      let flagged : Client = record started {
        flags = record old_flags { http_1_0 = false; http_1_1 = true; close = true };
      } in
      elim_some c.inputbuffer.buffer _ h.bytes h.has_block
      ∙ ap
          (λ (r : Bytes × Option Bytes).
            parse_line os mem junk get_vhost (scan_request_line r.0) r.1 started w)
          split
      ∙ ap (λ l. parse_line os mem junk get_vhost l (some fields) started w) words
      ∙ ap
          (λ (o : Option HttpMethod). elim o [
            | none ↦ some (set_code 501 flagged)
            | some k ↦
                parse_fields os mem junk get_vhost uri (some fields)
                  (record flagged { method = some k }) w
          ])
          h.known
      ∙ parse_fields-understood os mem ample junk get_vhost uri fields
          (record flagged { method = some m }) m v root path w refl h.no_code located
      ∙ rw (ample.calloc_ample sizeof_header) (
          ap (λ (hs : List Header). some (record left { outbound_headers = hs }))
            (append_assoc c.outbound_headers _ _))
