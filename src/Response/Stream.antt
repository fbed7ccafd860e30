-- ===== src/Response/Stream.antt =====
-- The answer as the client reads it.
use sillyweb.Base.{
  ℕ, ◌<◌, ◌≡◌, refl, sym, ap, ◌∙◌, true, List, [], ◌∷◌, ◌++◌, Option, none, some, length,
  length-append, append_assoc, append-nil, if◌then◌else◌, Bytes, codes, decimal, arith,
}
use sillyweb.Memory.{Allocator, IsAmple}
use sillyweb.Headers.{Header, sizeof_header, add_header}
use sillyweb.Http.{get_http_result_text}
use sillyweb.Http.Texts.{is_used, IsPrinted, is_used-IsPrinted}
use sillyweb.Platform.{Platform}
use sillyweb.Service.{Transport, tcp, ssl}
use sillyweb.Transport.{transport_send}
use sillyweb.Client.{Client}
use sillyweb.Response.{
  send_text, print_and_send, version_text, header_text, header_size, client_send_response_code,
  send_headers_from, add_connection, client_send_headers, ◌>>=◌, send_version, send_result_text,
}

-- Every send takes the whole text, and `sent` is what was taken so far.
pub record IsStream (os : Platform) (sent : os.World → Bytes) : Type 0 where
  pub send_takes :
      (sock : ℕ) (text : Bytes) (w : os.World) → sent (os.send sock text w).1 ≡ sent w ++ text
  pub ssl_write_takes :
      (ctx : ℕ) (text : Bytes) (w : os.World) → sent (os.ssl_write ctx text w).1 ≡ sent w ++ text

abbrev pub header_block : List Header → Bytes
header_block [] = []
header_block (h ∷ hs) = header_text h ++ header_block hs

-- The text of a version, or nothing.
abbrev pub or_nothing : Option Bytes → Bytes
or_nothing none = []
or_nothing (some text) = text

-- The status line: protocol, code and text.
abbrev pub status_line : Client → Bytes → Bytes
status_line c text =
    or_nothing (version_text c) ++ ((decimal c.result_code ++ codes " ") ++ (text ++ codes "\r\n"))

module _ (os : Platform) (sent : os.World → Bytes) (stream : IsStream os sent) (c : Client) where
  open os use {World}

  send_text-sent : (text : Bytes) (w : World) → sent (send_text os c text w) ≡ sent w ++ text
  unfolding send_text
  send_text-sent text w = by_transport c.server.transport
    where
      by_transport : (t : Transport) → sent (transport_send os t c text w).1 ≡ sent w ++ text
      by_transport tcp = unfold transport_send in stream.send_takes c.sock text w
      by_transport ssl = unfold transport_send in stream.ssl_write_takes c.sslctx text w

  -- A step of the answer has sent `text`.
  abbrev Sends : Bytes → World → Option World → Type 0
  Sends text w r = (w' : World) × (r ≡ some w') × (sent w' ≡ sent w ++ text)

  print_and_send-Sends :
      (size : ℕ) (text : Bytes) (w : World)
      → length text < size
      → Sends text w (print_and_send os size c text w)
  unfolding print_and_send
  print_and_send-Sends size text w h = (send_text os c text w, ground arith, send_text-sent text w)

  send_headers_from-Sends :
      (mem : Allocator)
      → IsAmple mem
      → (hs : List Header) (w : World) → Sends (header_block hs) w (send_headers_from os mem hs c w)
  unfolding send_headers_from
  send_headers_from-Sends mem ample [] w = (w, refl, sym (append-nil (sent w)))
  send_headers_from-Sends mem ample (h ∷ hs) w =
      let (w₁, e₁, s₁) = print_and_send-Sends (header_size h) (header_text h) w (
        omega (
          arith,
          length-append h.header_name (codes ": " ++ (h.header_value ++ codes "\r\n")),
          length-append h.header_value (codes "\r\n"),
        )) in
      let (w₂, e₂, s₂) = send_headers_from-Sends mem ample hs w₁ in
      (
        w₂,
        rw (send_headers_from, ample.malloc_ample (header_size h), e₁) e₂,
        s₂
            ∙ ap (λ t. t ++ header_block hs) s₁
            ∙ append_assoc (sent w) (header_text h) (header_block hs),
      )

  Sends-bind :
      (t t' : Bytes) (w : World) (m : Option World) (f : World → Option World)
      → Sends t w m
      → ((w' : World) → Sends t' w' (f w'))
      → Sends (t ++ t') w (m >>= f)
  Sends-bind t t' w m f (w', e, s) k =
      let (w'', e', s') = k w' in
      (w'', rw e e', s' ∙ ap (λ q. q ++ t') s ∙ append_assoc (sent w) t t')

  version-Sends :
      (o : Option Bytes) (w : World)
      → length (or_nothing o) < 256
      → Sends
          (or_nothing o)
          w
          (elim o [ none ↦ some w | some text ↦ print_and_send os 256 c text w ])
  version-Sends none w h = (w, refl, sym (append-nil (sent w)))
  version-Sends (some text) w h = print_and_send-Sends 256 text w h

  length-version_text : length (or_nothing (version_text c)) < 256
  unfolding version_text
  length-version_text = ground arith

  send_version-Sends : (w : World) → Sends (or_nothing (version_text c)) w (send_version os c w)
  unfolding send_version
  send_version-Sends w = version-Sends (version_text c) w length-version_text

  send_result_text-Sends :
      (p : IsPrinted c.result_code) (w : World) → Sends p.text w (send_result_text os c w)
  unfolding send_result_text
  send_result_text-Sends p w =
      rw (send_result_text, p.is_text) (print_and_send-Sends 256 p.text w p.text_fits)

  client_send_response_code-Sends :
      (p : IsPrinted c.result_code) (w : World)
      → Sends (status_line c p.text) w (client_send_response_code os c w)
  unfolding client_send_response_code
  client_send_response_code-Sends p w = Sends-bind _ _ w _ _ (send_version-Sends w) λ w₁.
      Sends-bind _ _ w₁ _ _
        (print_and_send-Sends 256 _ w₁
          (omega (arith, p.code_fits, length-append (decimal c.result_code) (codes " "))))
        λ w₂.
          Sends-bind _ _ w₂ _ _ (send_result_text-Sends p w₂)
            λ w₃. print_and_send-Sends 256 (codes "\r\n") w₃ (omega arith)

module _ (os : Platform) (mem : Allocator) (sent : os.World → Bytes) (stream : IsStream os sent)
    (ample : IsAmple mem) where
  open os use {World}

  -- On a stream that takes every text whole, and while there is memory, for a code that the
  -- handlers set: the status line and the headers are sent without a read behind an array, and what
  -- the client gets is protocol, code and text of the code on one line, then each outbound header
  -- on a line, "Connection" last, then an empty line.
  pub response-stream :
      (c : Client) (w : World)
      → is_used c.result_code ≡ true
      → (text : Bytes) × (w₁ : World) × (c' : Client) × (w₂ : World) × (get_http_result_text
            c.result_code
          ≡ some text)
        × (client_send_response_code os c w ≡ some w₁)
        × (client_send_headers os mem c w₁ ≡ some (c', w₂))
        × (c'.outbound_headers
            ≡ c.outbound_headers
              ++ record {
                header_name = codes "Connection";
                header_value = if c.flags.close then codes "Close" else codes "Keep-Alive";
              }
                ∷ [])
        × (sent w₂
            ≡ sent w ++ (status_line c text ++ (header_block c'.outbound_headers ++ codes "\r\n")))
  unfolding client_send_headers add_connection add_header
  response-stream c w used =
      let p = is_used-IsPrinted c.result_code used in
      let c' = add_connection mem c in
      let (w₁, e₁, s₁) = client_send_response_code-Sends os sent stream c p w in
      let (w₂, e₂, s₂) =
        send_headers_from-Sends os sent stream c' mem ample c'.outbound_headers w₁ in
      (
        p.text,
        w₁,
        c',
        send_text os c' (codes "\r\n") w₂,
        p.is_text,
        e₁,
        rw (client_send_headers, e₂),
        rw (ample.calloc_ample sizeof_header),
        send_text-sent os sent stream c' (codes "\r\n") w₂
            ∙ ap (λ q. q ++ codes "\r\n") (s₂ ∙ ap (λ q. q ++ header_block c'.outbound_headers) s₁)
            ∙ append_assoc (sent w ++ status_line c p.text) (header_block c'.outbound_headers)
                (codes "\r\n")
            ∙ append_assoc (sent w) (status_line c p.text)
                (header_block c'.outbound_headers ++ codes "\r\n"),
      )
