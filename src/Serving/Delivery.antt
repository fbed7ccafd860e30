-- ===== src/Serving/Delivery.antt =====
-- From the bytes of a request for a file to the headers of the answer: `answer_request`.
use mathlib.Core.Path.{subst}
use sillyweb.Base.{
  ℕ, ◌≡◌, refl, sym, ap, ◌∙◌, true, List, ◌++◌, Option, some, Bytes, codes, append_assoc,
  append_cancel_right,
}
use sillyweb.Memory.{Allocator, IsAmple}
use sillyweb.Buffer.Content.{IsValid}
use sillyweb.Http.{get_http_result_text}
use sillyweb.Log.Fits.{IsClock}
use sillyweb.Platform.{Platform}
use sillyweb.Service.{HttpMethod, Vhost}
use sillyweb.Client.{Client}
use sillyweb.Request.{is_client_request_complete, uri_of}
use sillyweb.Request.Complete.{is_client_request_complete-Contains}
use sillyweb.Request.Parse.{AnyVhost, parse_request, local_path}
use sillyweb.Request.Understood.{understood, parse_request-understood}
use sillyweb.Response.{version_text}
use sillyweb.Response.Stream.{IsStream, status_line, header_block}
use sillyweb.Transfer.Delivery.{IsDelivery, IsPumping}
use sillyweb.Dispatch.{dispatch_request}
use sillyweb.Dispatch.Accepted.{IsAccepted, connected, dispatch_request-answer}
use sillyweb.Dispatch.Files.{
  IsOpening, IsFileAt, opened, size_of, serve_at-opened, opened-IsLoggable, dispatch_request-file,
}
use sillyweb.Serving.Asked.{IsComplete, IsForFile, answered, headers_after}
use sillyweb.Serving.{Leftovers, answer_request}

-- The connection takes every text whole, and what is sent leaves `f` as it is.
pub record IsQuiet (os : Platform) (f sent : os.World → Bytes) : Type 0 where
  pub send_takes :
      (sock : ℕ) (text : Bytes) (w : os.World)
      → (sent (os.send sock text w).1 ≡ sent w ++ text) × (f (os.send sock text w).1 ≡ f w)
  pub ssl_write_takes :
      (ctx : ℕ) (text : Bytes) (w : os.World)
      → (sent (os.ssl_write ctx text w).1 ≡ sent w ++ text) × (f (os.ssl_write ctx text w).1 ≡ f w)

pub delivery-IsQuiet :
    (os : Platform) (rest sent : os.World → Bytes) → IsDelivery os rest sent → IsQuiet os rest sent
delivery-IsQuiet os rest sent link = record {
  send_takes = λ sock text w. ((link.send_takes sock text w).1, (link.send_takes sock text w).2);
  ssl_write_takes =
      λ ctx text w. ((link.ssl_write_takes ctx text w).1, (link.ssl_write_takes ctx text w).2);
}

module _ (os : Platform) (mem : Allocator) (ample : IsAmple mem) (clock : IsClock os)
    (rest sent : os.World → Bytes) (link : IsQuiet os rest sent) where
  open os use {World}

  link-IsStream : IsStream os sent
  link-IsStream = record {
    send_takes = λ sock text w. (link.send_takes sock text w).0;
    ssl_write_takes = λ ctx text w. (link.ssl_write_takes ctx text w).0;
  }

  -- What was not read yet, before what was sent.
  abbrev both : World → Bytes
  both w = rest w ++ sent w

  both-IsStream : IsStream os both
  both-IsStream = record {
    send_takes = λ sock text w.
        joined text w (os.send sock text w).1 (link.send_takes sock text w).0
          (link.send_takes sock text w).1;
    ssl_write_takes = λ ctx text w.
        joined text w (os.ssl_write ctx text w).1 (link.ssl_write_takes ctx text w).0
          (link.ssl_write_takes ctx text w).1;
  }
    where
      joined :
          (text : Bytes) (w w' : World)
          → sent w' ≡ sent w ++ text
          → rest w' ≡ rest w
          → both w' ≡ both w ++ text
      joined text w w' out left = rw (out, left) (sym (append_assoc (rest w) (sent w) text))

  both-cancel :
      (text : Bytes) (w w' : World)
      → sent w' ≡ sent w ++ text
      → both w' ≡ both w ++ text
      → rest w' ≡ rest w
  both-cancel text w w' out all =
      append_cancel_right (rest w') (rest w) (sent w')
        (all ∙ append_assoc (rest w) (sent w) text ∙ ap (λ t. rest w ++ t) (sym out))

  -- The headers go out, and of the file nothing is read yet.
  pub dispatch_request-unread :
      (opening : IsOpening os sent) (argp : List (Option Bytes)) (i : ℕ) (c : Client) (w : World)
      (m : HttpMethod) (v : Vhost) (path root name type : Bytes) (fd : ℕ)
      → IsAccepted c m v path root
      → IsFileAt os c path root name type fd w
      → IsValid c.outputbuffer
      → c.outputbuffer.len ≡ 0
      → (text : Bytes) × (c' : Client) × (w' : World) × (get_http_result_text 200 ≡ some text)
        × (dispatch_request os mem argp i c w ≡ some (c', w'))
        × (c' ≡ connected (opened fd (size_of os path fd w).0 type c))
        × IsPumping c'
        × (sent w'
            ≡ sent w ++ (status_line c text ++ (header_block c'.outbound_headers ++ codes "\r\n")))
        × (rest w' ≡ rest (size_of os path fd w).1)
  dispatch_request-unread opening argp i c w m v path root name type fd h file valid empty =
      let k = opened fd (size_of os path fd w).0 type c in
      let w₁ = (size_of os path fd w).1 in
      let (text, c', w', is_text, e, same, pumping, out) =
        dispatch_request-file os mem sent link-IsStream ample clock opening argp i c w m v path root
          name type fd h file valid empty in
      let (text', w'', is_text', e', out') =
        dispatch_request-answer os mem both both-IsStream ample clock argp i c k w w₁ m v path root
          h (serve_at-opened os mem ample argp i c w m v path root name type fd h file)
          (opened-IsLoggable c m v path root fd (size_of os path fd w).0 type h) in
      let (text₀, w₀, is_text₀, e₀, out₀) =
        dispatch_request-answer os mem sent link-IsStream ample clock argp i c k w w₁ m v path root
          h (serve_at-opened os mem ample argp i c w m v path root name type fd h file)
          (opened-IsLoggable c m v path root fd (size_of os path fd w).0 type h) in
      let agreed : (text' ≡ text₀) × (w'' ≡ w₀) × (w' ≡ w₀) =
        (cc (is_text', is_text₀), cc (e', e₀), cc (e, e₀)) in
      (
        text,
        c',
        w',
        is_text,
        e,
        same,
        pumping,
        out,
        ap rest agreed.2
            ∙ both-cancel _ w₁ w₀ out₀ (
                sym (ap both agreed.1)
                ∙ out'
                ∙ ap
                    (λ t.
                      both w₁
                      ++ (status_line k t
                          ++ (header_block (connected k).outbound_headers ++ codes "\r\n")))
                    agreed.0),
      )

  pub answer_request-understood :
      (get_vhost : AnyVhost) (mess : Leftovers) (c c' : Client) (bytes : Bytes) (w : World)
      → c.inputbuffer.buffer ≡ some bytes
      → IsComplete c (mess.behind c)
      → parse_request os mem (mess.last c) get_vhost (mess.behind c) c w ≡ some c'
      → answer_request os mem get_vhost mess c w
        ≡ dispatch_request os mem (mess.argp c) (mess.index c) c' w
  unfolding answer_request
  answer_request-understood get_vhost mess c c' bytes w block complete parsed =
      let (found, e, found') =
        is_client_request_complete-Contains c.inputbuffer (mess.behind c) bytes block in
      let yes : is_client_request_complete c.inputbuffer (mess.behind c) ≡ some true =
        e ∙ ap some (found'.1 (complete.long, complete.ends)) in
      rw (answer_request, yes, parsed) refl

  -- A request for a file is answered with the headers, and of the file nothing is read yet.
  pub answer_request-opens :
      (opening : IsOpening os sent) (get_vhost : AnyVhost) (mess : Leftovers) (c : Client)
      (method uri fields : Bytes) (m : HttpMethod) (v : Vhost) (root path type : Bytes) (fd : ℕ)
      (w : World)
      → IsForFile os get_vhost mess c method uri fields m v root path type fd w
      → (text : Bytes) × (w' : World) × (get_http_result_text 200 ≡ some text)
        × (answer_request os mem get_vhost mess c w
            ≡ some (answered os mess c m uri fields v root path type fd w, w'))
        × IsPumping (answered os mess c m uri fields v root path type fd w)
        × (sent w'
            ≡ sent w
              ++ (status_line (answered os mess c m uri fields v root path type fd w) text
                  ++ (header_block
                        (answered os mess c m uri fields v root path type fd w).outbound_headers
                      ++ codes "\r\n")))
        × (rest w' ≡ rest (size_of os path fd w).1)
  unfolding version_text
  answer_request-opens opening get_vhost mess c method uri fields m v root path type fd w h =
      let u = understood os c m (headers_after c fields) (mess.last c) uri v root path w in
      let parsed =
        parse_request-understood os mem ample (mess.last c) get_vhost (mess.behind c) method uri
          fields c m v root path w h.request h.located in
      let accepted : IsAccepted u m v path root = record {
        has_code = refl;
        has_method = refl;
        has_vhost = refl;
        has_path = refl;
        has_root = h.located.has_root;
        not_cgi = h.waiting.not_cgi;
        short_names = h.waiting.short_names;
        short_line = h.waiting.short_line;
      } in
      let (text, c₁, w₂, is_text, e, same, pumping, out, left) =
        dispatch_request-unread opening (mess.argp c) (mess.index c) u w m v path root
          (os.basename (local_path root (uri_of (mess.last c) uri))) type fd accepted h.file
          h.waiting.valid h.waiting.empty in
      (
        text,
        w₂,
        is_text,
        answer_request-understood get_vhost mess c u h.request.bytes w h.request.has_block
              h.complete parsed
            ∙ e
            ∙ ap (λ (k : Client). some (k, w₂)) same,
        subst (λ (k : Client). IsPumping k) same pumping,
        out
            ∙ ap
                (λ (k : Client).
                  sent w
                  ++ (status_line u text ++ (header_block k.outbound_headers ++ codes "\r\n")))
                same,
        left,
      )
