-- ===== src/Dispatch.antt =====
-- main.c: `dispatch_request`. `none` is an access outside a block or an array, or through NULL. The
-- value that it returns is read by no caller and left out.
pub mod Refusal
pub mod Answer
pub mod Accepted
pub mod Missing
pub mod Files
use sillyweb.Base.{
  ℕ, Bool, true, false, not, ◌&&◌, ◌==◌, List, ◌++◌, Option, none, some, if◌then◌else◌, Bytes,
  codes, strstr, decimal, is_nonzero,
}
use sillyweb.Memory.{Allocator}
use sillyweb.Buffer.{append_buffer}
use sillyweb.Headers.{add_header}
use sillyweb.Http.{
  http_result_ok, http_result_not_found, http_result_forbidden, http_result_internal_server_error,
}
use sillyweb.Platform.{Platform}
use sillyweb.Mime.{get_mime_from_filename}
use sillyweb.Client.{Client, clear_client}
use sillyweb.Service.{HttpMethod, Vhost}
use sillyweb.Transport.{transport_close}
use sillyweb.Log.{shown, llog_service, llog_client}
use sillyweb.Request.{is_some}
use sillyweb.Request.Parse.{set_code}
use sillyweb.Response.{client_send_response_code, client_send_headers}
use sillyweb.Transfer.{transfer_open}
use sillyweb.Cgi.{run_cgi}
use sillyweb.Listing.{generate_dir_listing}

abbrev pub typed : Allocator → Client → Client
typed mem c = record c {
  outbound_headers = add_header mem c.outbound_headers (codes "Content-type") (codes "text/html");
}

-- What becomes of the connection: the flags of HTTP/1.1 and HTTP/1.0.
module _ (os : Platform) where
  open os use {World}

  unfoldable pub finish_as : Bool → Bool → Client → World → Client × World
  finish_as true http_1_0 c w = clear_client os c w
  finish_as false true c w =
      let c' : Client = record c { active = false } in
      (c', transport_close os c.server.transport c' w)
  finish_as false false c w = (c, w)

  abbrev pub finish_refusal : Client → World → Client × World
  finish_refusal c w = finish_as c.flags.http_1_1 c.flags.http_1_0 c w

-- "%d" of a result code.
abbrev pub code_text : Client → Bytes
code_text c = decimal c.result_code

-- The message for the log; its arguments read the name of the method.
abbrev pub refusal_message : HttpMethod → Client → Bytes
refusal_message m c = m.method ++ (codes " [" ++ (shown c.uri ++ (codes "] " ++ code_text c)))

abbrev pub answer_message : HttpMethod → Client → Bytes
answer_message m c = refusal_message m c ++ (codes " - " ++ shown c.cleanlocalpath)

module _ (os : Platform) where
  open os use {World}

  -- The last call of `llog`, after which the function returns.
  unfoldable pub log_as :
      (HttpMethod → Client → Bytes) → Option HttpMethod → Client × World → Option (Client × World)
  log_as message none r = none
  log_as message (some m) r = if llog_service os (message m r.0) r.1 then some r else none

module _ (os : Platform) (mem : Allocator) where
  open os use {World}

  unfoldable pub after_headers : Client → World → Option (Client × World)
  unfolding finish_as log_as
  after_headers c w = elim (append_buffer mem c.outputbuffer (codes "<html>") 6) [
    | none ↦ none
    | some (b, _) ↦
        let r = finish_refusal os (record c { outputbuffer = b }) w in
        log_as os refusal_message r.0.method r
  ]

  unfoldable pub refuse_request : Client → World → Option (Client × World)
  unfolding after_headers
  refuse_request c w = elim (client_send_response_code os (typed mem c) w) [
    | none ↦ none
    | some w' ↦ elim (client_send_headers os mem (typed mem c) w') [
      | none ↦ none
      | some (c', w'') ↦ after_headers c' w''
    ]
  ]

  -- The branch of a file that is one: it is opened, and its type is put into the headers.
  unfoldable pub serve_file : Client → World → Option (Client × World)
  unfolding transfer_open
  serve_file c w = elim (transfer_open os mem c.transfer c w) [
    | none ↦ none
    | some (c', w') ↦
        if is_nonzero c'.pump_fd
        then elim c'.filename [
          | none ↦ none
          | some name ↦ elim (get_mime_from_filename name) [
            | none ↦ none
            | some type ↦ some (
              record c' {
                outbound_headers = add_header mem c'.outbound_headers (codes "Content-Type") type;
              },
              w',
            )
          ]
        ]
        else some (set_code http_result_internal_server_error c', w')
  ]

  -- The branch of a path below the document root.
  unfoldable pub serve_path : Bytes → Client → World → Option (Client × World)
  unfolding serve_file generate_dir_listing set_code
  serve_path path c w =
      if os.is_file path w
      then serve_file c w
      else if os.is_dir path w
      then elim (generate_dir_listing os mem (set_code http_result_ok c) path w) [
        | none ↦ none
        | some c' ↦ some (c', w)
      ]
      else some (set_code http_result_not_found c, w)

  -- What follows the branches: `handler` changes nothing, whichever it is.
  unfoldable pub answer : Option HttpMethod → Client → World → Option (Client × World)
  unfolding log_as
  answer none c w = none
  answer (some m) c w = elim (client_send_response_code os c w) [
    | none ↦ none
    | some w' ↦ elim (client_send_headers os mem c w') [
      | none ↦ none
      | some r ↦ log_as os answer_message r.0.method r
    ]
  ]

module _ (os : Platform) (mem : Allocator) (argp : List (Option Bytes)) (i : ℕ) where
  open os use {World}

  -- The three branches on where the path is.
  unfoldable pub serve_at : Bytes → Bytes → Vhost → Client → World → Option (Client × World)
  unfolding serve_path run_cgi set_code strstr is_some
  serve_at path root v c w =
      if is_some (strstr path root) && not c.is_cgi_request
      then serve_path os mem path c w
      else if c.is_cgi_request
      then run_cgi argp i c v
      else some (set_code http_result_forbidden c, w)

  -- The branch for 200; a NULL path, virtual host or root is a fault.
  unfoldable pub accept_request : Client → World → Option (Client × World)
  unfolding serve_at answer
  accept_request c w = elim c.cleanlocalpath [
    | none ↦ none
    | some path ↦ elim c.vhost [
      | none ↦ none
      | some v ↦ elim v.document_root [
        | none ↦ none
        | some root ↦ elim (serve_at path root v c w) [
          | none ↦ none
          | some (c', w') ↦ answer os mem c'.method c' w'
        ]
      ]
    ]
  ]

  -- `argp` is the block that `malloc` gives, and `i` the local variable, which is not initialised.
  unfoldable pub dispatch_request : Client → World → Option (Client × World)
  unfolding accept_request refuse_request
  dispatch_request c w = elim (llog_client os c (codes "dispatch") w) [
    | false ↦ none
    | true ↦
        if c.result_code == http_result_ok then accept_request c w else refuse_request os mem c w
  ]
