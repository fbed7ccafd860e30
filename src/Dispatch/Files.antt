-- ===== src/Dispatch/Files.antt =====
-- The answer of `dispatch_request` to a request that was accepted, for a file.
use sillyweb.Base.{
  ℕ, suc, ◌≡◌, elim_some, refl, sym, ap, ◌∙◌, true, false, List, [], ◌∷◌, ◌++◌, Option, some, Bytes,
  codes, strstr, ℤ, pos, is_nonzero, append_assoc, arith, decimal,
}
use sillyweb.Memory.{Allocator, IsAmple}
use sillyweb.Buffer.Content.{IsValid}
use sillyweb.Headers.{Header, add_header, sizeof_header}
use sillyweb.Http.{get_http_result_text}
use sillyweb.Log.Fits.{IsClock}
use sillyweb.Mime.{get_mime_from_filename}
use sillyweb.Platform.{Platform}
use sillyweb.Service.{HttpMethod, Vhost, plain}
use sillyweb.Client.{Client}
use sillyweb.Request.{is_some}
use sillyweb.Response.{version_text}
use sillyweb.Response.Stream.{IsStream, status_line, header_block}
use sillyweb.Transfer.{int_text, plain_transfer_open, transfer_open}
use sillyweb.Transfer.Delivery.{IsPumping}
use sillyweb.Dispatch.{serve_file, serve_path, serve_at, dispatch_request}
use sillyweb.Dispatch.Accepted.{IsAccepted, IsLoggable, connected, dispatch_request-answer}

-- Opening a file and seeking in it sends nothing.
pub record IsOpening (os : Platform) (sent : os.World → Bytes) : Type 0 where
  pub open_quiet : (path : Bytes) (w : os.World) → sent (os.open_file path w).1 ≡ sent w
  pub size_quiet : (fd : ℤ) (w : os.World) → sent (os.file_size fd w).1 ≡ sent w

-- The text of the document root occurs in the path, where there is a file that opens, whose name
-- has a type, for a plain transfer.
pub record IsFileAt (os : Platform) (c : Client) (path root name type : Bytes) (fd : ℕ)
    (w : os.World) : Type 0 where
  pub below : is_some (strstr path root) ≡ true
  pub is_file : os.is_file path w ≡ true
  pub is_plain : c.transfer ≡ plain
  pub opens : (os.open_file path w).0 ≡ pos (suc fd)
  pub named : c.filename ≡ some name
  pub typed : get_mime_from_filename name ≡ some type

-- The headers of a file.
abbrev pub file_headers : ℤ → Bytes → List Header
file_headers size type =
    record { header_name = codes "Transfer-Encoding"; header_value = codes "plain" }
    ∷ record { header_name = codes "Content-Length"; header_value = int_text size }
    ∷ record { header_name = codes "Content-Type"; header_value = type }
    ∷ []

-- The client with the file open, and with these headers behind its others.
abbrev pub opened : ℕ → ℤ → Bytes → Client → Client
opened fd size type c = record c {
  pump_fd = pos (suc fd);
  transfer_in_progress = true;
  transfer_completed = false;
  outbound_headers = c.outbound_headers ++ file_headers size type;
}

-- What `lseek` gives, and the world behind it.
abbrev pub size_of : (os : Platform) → Bytes → ℕ → os.World → ℤ × os.World
size_of os path fd w = os.file_size (pos (suc fd)) (os.open_file path w).1

module _ (os : Platform) (mem : Allocator) (ample : IsAmple mem) where
  open os use {World}

  -- The client when the file is open, before its type is known.
  abbrev pumping : ℕ → ℤ → Client → Client
  pumping fd size c = record c {
    pump_fd = pos (suc fd);
    transfer_in_progress = true;
    transfer_completed = false;
    outbound_headers =
        add_header mem
          (add_header mem c.outbound_headers (codes "Transfer-Encoding") (codes "plain"))
          (codes "Content-Length") (int_text size);
  }

  plain_transfer_open-pumping :
      (c : Client) (w : World) (path : Bytes) (fd : ℕ)
      → c.cleanlocalpath ≡ some path
      → (os.open_file path w).0 ≡ pos (suc fd)
      → plain_transfer_open os mem c w
        ≡ some (pumping fd (size_of os path fd w).0 c, (size_of os path fd w).1)
  unfolding plain_transfer_open
  plain_transfer_open-pumping c w path fd located opens =
      elim_some c.cleanlocalpath _ path located ∙ rw opens refl

  file_headers-added :
      (hs : List Header) (size : ℤ) (type : Bytes)
      → add_header mem
          (add_header mem
            (add_header mem hs (codes "Transfer-Encoding") (codes "plain"))
            (codes "Content-Length")
            (int_text size))
          (codes "Content-Type")
          type
        ≡ hs ++ file_headers size type
  unfolding add_header
  file_headers-added hs size type =
      rw (ample.calloc_ample sizeof_header) (append_assoc (hs ++ _ ∷ []) _ _ ∙ append_assoc hs _ _)

  serve_file-opened :
      (c : Client) (w : World) (path root name type : Bytes) (fd : ℕ)
      → c.cleanlocalpath ≡ some path
      → IsFileAt os c path root name type fd w
      → serve_file os mem c w
        ≡ some (opened fd (size_of os path fd w).0 type c, (size_of os path fd w).1)
  unfolding serve_file transfer_open
  serve_file-opened c w path root name type fd located h =
      let (size, w₁) = size_of os path fd w in
      let nonzero : is_nonzero (pos (suc fd)) ≡ true = ground arith in
      let opens : transfer_open os mem c.transfer c w ≡ some (pumping fd size c, w₁) =
        ap (λ t. transfer_open os mem t c w) h.is_plain
        ∙ plain_transfer_open-pumping c w path fd located h.opens in
      elim_some (transfer_open os mem c.transfer c w) _ (pumping fd size c, w₁) opens
      ∙ rw nonzero (
          elim_some c.filename _ name h.named
          ∙ elim_some (get_mime_from_filename name) _ type h.typed
          ∙ ap
              (λ (hs : List Header).
                some (record (pumping fd size c) { outbound_headers = hs }, w₁))
              (file_headers-added c.outbound_headers size type))

serve_at-file :
    (os : Platform) (mem : Allocator) (argp : List (Option Bytes)) (i : ℕ) (path root : Bytes)
    (v : Vhost) (c : Client) (w : os.World)
    → c.is_cgi_request ≡ false
    → is_some (strstr path root) ≡ true
    → os.is_file path w ≡ true
    → serve_at os mem argp i path root v c w ≡ serve_file os mem c w
unfolding serve_at serve_path
serve_at-file os mem argp i path root v c w no_cgi below is_file =
    rw (serve_at, below, no_cgi, serve_path, is_file, ← no_cgi) refl

pub serve_at-opened :
    (os : Platform) (mem : Allocator) (ample : IsAmple mem) (argp : List (Option Bytes)) (i : ℕ)
    (c : Client) (w : os.World) (m : HttpMethod) (v : Vhost) (path root name type : Bytes) (fd : ℕ)
    → IsAccepted c m v path root
    → IsFileAt os c path root name type fd w
    → serve_at os mem argp i path root v c w
      ≡ some (opened fd (size_of os path fd w).0 type c, (size_of os path fd w).1)
serve_at-opened os mem ample argp i c w m v path root name type fd h file =
    serve_at-file os mem argp i path root v c w h.not_cgi file.below file.is_file
    ∙ serve_file-opened os mem ample c w path root name type fd h.has_path file

-- The line of the log fits, whatever is opened.
pub opened-IsLoggable :
    (c : Client) (m : HttpMethod) (v : Vhost) (path root : Bytes) (fd : ℕ) (size : ℤ) (type : Bytes)
    → IsAccepted c m v path root
    → IsLoggable (opened fd size type c) m path
opened-IsLoggable c m v path root fd size type h = record {
  used = rw h.has_code refl;
  method = h.has_method;
  located = h.has_path;
  short = h.short_line;
}

module _ (os : Platform) (mem : Allocator) (sent : os.World → Bytes) (stream : IsStream os sent)
    (ample : IsAmple mem) (clock : IsClock os) (opening : IsOpening os sent) where
  open os use {World}

  -- On a stream that takes every text whole, while there is memory, for a request that
  -- `parse_request` has accepted, that is not for CGI, and whose texts fit the lines of the log: if
  -- the text of the document root occurs in the path, there is a file that opens, with a type for
  -- its name, the transfer is plain, and nothing is in the output buffer, `dispatch_request` sends
  -- the text of 200 and the headers: those that were there, "Transfer-Encoding", "Content-Length"
  -- with the offset of the end of the file, "Content-Type" with the type, and "Connection". It
  -- leaves the client with the file open and ready to be sent.
  pub dispatch_request-file :
      (argp : List (Option Bytes)) (i : ℕ) (c : Client) (w : World) (m : HttpMethod) (v : Vhost)
      (path root name type : Bytes) (fd : ℕ)
      → IsAccepted c m v path root
      → IsFileAt os c path root name type fd w
      → IsValid c.outputbuffer
      → c.outputbuffer.len ≡ 0
      → (text : Bytes) × (c' : Client) × (w' : World) × (get_http_result_text 200 ≡ some text)
        × (dispatch_request os mem argp i c w ≡ some (c', w'))
        × (c' ≡ connected (opened fd (size_of os path fd w).0 type c))
        × IsPumping c'
        × (sent w'
            ≡ sent w ++ (status_line c text ++ (header_block c'.outbound_headers ++ codes "\r\n")))
  unfolding version_text decimal
  dispatch_request-file argp i c w m v path root name type fd h file valid empty =
      let (size, w₁) = size_of os path fd w in
      let k = opened fd size type c in
      let served : serve_at os mem argp i path root v c w ≡ some (k, w₁) =
        serve_at-opened os mem ample argp i c w m v path root name type fd h file in
      let (text, w', is_text, e, s) =
        dispatch_request-answer os mem sent stream ample clock argp i c k w w₁ m v path root h
          served (opened-IsLoggable c m v path root fd size type h) in
      (
        text,
        connected k,
        w',
        sym (ap get_http_result_text h.has_code) ∙ is_text,
        e,
        refl,
        record {
          has_file = refl;
          in_progress = refl;
          unfinished = refl;
          valid = valid;
          empty = empty;
        },
        s
            ∙ ap
                (λ t.
                  t
                  ++ (status_line c text
                      ++ (header_block (connected k).outbound_headers ++ codes "\r\n")))
                (opening.size_quiet (pos (suc fd)) (os.open_file path w).1
                  ∙ opening.open_quiet path w),
      )
