-- ===== src/Dispatch/Accepted.antt =====
-- How `dispatch_request` ends for a request that was accepted: the headers are sent and a line is
-- logged.
use sillyweb.Base.{
  ℕ, ◌+◌, ◌≤◌, ◌≡◌, elim_some, refl, ap, ◌∙◌, true, false, List, [], ◌∷◌, ◌++◌, length,
  length-append, Option, some, if◌then◌else◌, Bytes, codes, decimal, arith, ◌==◌,
}
use sillyweb.Memory.{Allocator, IsAmple}
use sillyweb.Headers.{add_header, sizeof_header}
use sillyweb.Http.{get_http_result_text}
use sillyweb.Http.Texts.{is_used, is_used-IsPrinted}
use sillyweb.Log.{shown, llog_service, llog_client}
use sillyweb.Log.Fits.{IsClock, llog_service_fits, llog_client_fits}
use sillyweb.Platform.{Platform}
use sillyweb.Service.{HttpMethod, Vhost}
use sillyweb.Client.{Client}
use sillyweb.Response.{add_connection}
use sillyweb.Response.Stream.{IsStream, status_line, header_block, response-stream}
use sillyweb.Dispatch.{answer_message, log_as, serve_at, answer, accept_request, dispatch_request}
use sillyweb.Dispatch.Refusal.{client_send_headers-left}

-- A request that `parse_request` has accepted, with texts that fit the lines of the log.
pub record IsAccepted (c : Client) (m : HttpMethod) (v : Vhost) (path root : Bytes) : Type 0 where
  pub has_code : c.result_code ≡ 200
  pub has_method : c.method ≡ some m
  pub has_vhost : c.vhost ≡ some v
  pub has_path : c.cleanlocalpath ≡ some path
  pub has_root : v.document_root ≡ some root
  pub not_cgi : c.is_cgi_request ≡ false
  pub short_names : length (shown c.ipaddrstr) + length (shown v.hostname) ≤ 440
  pub short_line : length m.method + length (shown c.uri) + length path ≤ 440

-- The client with a "Connection" header behind its others.
abbrev pub connected : Client → Client
connected c = record c {
  outbound_headers =
      c.outbound_headers
      ++ record {
        header_name = codes "Connection";
        header_value = if c.flags.close then codes "Close" else codes "Keep-Alive";
      }
        ∷ [];
}

length-answer_message :
    (m : HttpMethod) (c : Client) (path : Bytes)
    → c.cleanlocalpath ≡ some path
    → length (decimal c.result_code) ≤ 3
    → length m.method + length (shown c.uri) + length path ≤ 440
    → length (answer_message m c) ≤ 471
length-answer_message m c path e digits short =
    let tail = codes "] " ++ decimal c.result_code in
    let text : shown c.cleanlocalpath ≡ path = rw e refl in
    omega (
      arith,
      digits,
      short,
      ap (λ (t : Bytes). length t) text,
      length-append (m.method ++ (codes " [" ++ (shown c.uri ++ tail)))
          (codes " - " ++ shown c.cleanlocalpath),
      length-append m.method (codes " [" ++ (shown c.uri ++ tail)),
      length-append (shown c.uri) tail,
    )

-- Result code, method and path of a client that is answered, and a line of the log that fits.
pub record IsLoggable (c : Client) (m : HttpMethod) (path : Bytes) : Type 0 where
  pub used : is_used c.result_code ≡ true
  pub method : c.method ≡ some m
  pub located : c.cleanlocalpath ≡ some path
  pub short : length m.method + length (shown c.uri) + length path ≤ 440

module _ (os : Platform) (mem : Allocator) (sent : os.World → Bytes) (stream : IsStream os sent)
    (ample : IsAmple mem) (clock : IsClock os) where
  open os use {World}

  connected-add_connection : (c : Client) → add_connection mem c ≡ connected c
  unfolding add_connection add_header
  connected-add_connection c = rw (ample.calloc_ample sizeof_header) refl

  answer-sends :
      (c : Client) (w : World) (m : HttpMethod) (path : Bytes)
      → IsLoggable c m path
      → (text : Bytes) × (w' : World) × (get_http_result_text c.result_code ≡ some text)
        × (answer os mem c.method c w ≡ some (connected c, w'))
        × (sent w'
            ≡ sent w
              ++ (status_line c text
                  ++ (header_block (connected c).outbound_headers ++ codes "\r\n")))
  unfolding answer log_as
  answer-sends c w m path h =
      let (text, w₁, c₁, w₂, is_text, e₁, e₂, _, s) =
        response-stream os mem sent stream ample c w h.used in
      let p = is_used-IsPrinted c.result_code h.used in
      let same : c₁ ≡ connected c =
        client_send_headers-left os mem c c₁ w₁ w₂ e₂ ∙ connected-add_connection c in
      let logged : llog_service os (answer_message m (connected c)) w₂ ≡ true =
        llog_service_fits os clock (answer_message m (connected c)) w₂
          (length-answer_message m (connected c) path h.located p.code_fits h.short) in
      (
        text,
        w₂,
        is_text,
        ap (λ o. answer os mem o c w) h.method
            ∙ rw (answer, e₁, e₂)
                (ap (λ (k : Client). log_as os answer_message k.method (k, w₂)) same
                  ∙ ap (λ o. log_as os answer_message o (connected c, w₂)) h.method
                  ∙ rw (log_as, logged)),
        s
            ∙ ap
                (λ (k : Client).
                  sent w
                  ++ (status_line c text ++ (header_block k.outbound_headers ++ codes "\r\n")))
                same,
      )

  -- `k` is what the branches on the path make of the client.
  pub dispatch_request-answer :
      (argp : List (Option Bytes)) (i : ℕ) (c k : Client) (w w₁ : World) (m : HttpMethod)
      (v : Vhost) (path root : Bytes)
      → IsAccepted c m v path root
      → serve_at os mem argp i path root v c w ≡ some (k, w₁)
      → IsLoggable k m path
      → (text : Bytes) × (w' : World) × (get_http_result_text k.result_code ≡ some text)
        × (dispatch_request os mem argp i c w ≡ some (connected k, w'))
        × (sent w'
            ≡ sent w₁
              ++ (status_line k text
                  ++ (header_block (connected k).outbound_headers ++ codes "\r\n")))
  unfolding dispatch_request accept_request
  dispatch_request-answer argp i c k w w₁ m v path root h served loggable =
      let (text, w', is_text, e, s) = answer-sends k w₁ m path loggable in
      let logged : llog_client os c (codes "dispatch") w ≡ true =
        llog_client_fits os clock c v (codes "dispatch") w h.has_vhost h.short_names
          (omega arith) in
      let accepted : (c.result_code == 200) ≡ true = rw h.has_code refl in
      (
        text,
        w',
        is_text,
        rw (dispatch_request, logged, accepted)
            (elim_some c.cleanlocalpath _ path h.has_path
              ∙ elim_some c.vhost _ v h.has_vhost
              ∙ elim_some v.document_root _ root h.has_root
              ∙ elim_some _ _ (k, w₁) served
              ∙ e),
        s,
      )
