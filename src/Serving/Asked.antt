-- ===== src/Serving/Asked.antt =====
-- A request for a file, and the client when it is answered.
use sillyweb.Base.{ℕ, ◌+◌, ◌<◌, ◌≤◌, ◌≡◌, ◌⊎◌, false, List, ◌++◌, length, Bytes, codes}
use sillyweb.Buffer.Content.{IsValid}
use sillyweb.Headers.{Header}
use sillyweb.Log.{shown}
use sillyweb.Platform.{Platform}
use sillyweb.Service.{HttpMethod, Vhost}
use sillyweb.Client.{Client}
use sillyweb.Request.{text_at, uri_of}
use sillyweb.Request.Complete.{Contains}
use sillyweb.Request.Fields.{lines, headers_of}
use sillyweb.Request.Parse.{AnyVhost, local_path}
use sillyweb.Request.Located.{IsLocated}
use sillyweb.Request.Understood.{IsRequest, understood}
use sillyweb.Dispatch.Accepted.{connected}
use sillyweb.Dispatch.Files.{IsFileAt, opened, size_of}
use sillyweb.Serving.{Leftovers}

-- The headers with those of the lines behind them.
abbrev pub headers_after : Client → Bytes → List Header
headers_after c fields = c.inbound_headers ++ headers_of (lines fields)

-- The request is there up to the empty line behind its headers.
pub record IsComplete (c : Client) (behind : Bytes) : Type 0 where
  pub long : 4 < c.inputbuffer.len
  pub ends :
      Contains (text_at c.inputbuffer behind) (codes "\r\n\r\n")
      ⊎ Contains (text_at c.inputbuffer behind) (codes "\n\n")

-- A client that waits for its answer: nothing is in the output buffer, no CGI program was asked
-- for, and its names and those of the request fit the lines of the log.
pub record IsWaiting (c : Client) (m : HttpMethod) (uri path : Bytes) (v : Vhost) : Type 0 where
  pub valid : IsValid c.outputbuffer
  pub empty : c.outputbuffer.len ≡ 0
  pub not_cgi : c.is_cgi_request ≡ false
  pub short_names : length (shown c.ipaddrstr) + length (shown v.hostname) ≤ 440
  pub short_line : length m.method + length uri + length path ≤ 440

-- The request is for a file: a method and a URI with header lines, complete and understood, for a
-- path of a virtual host where there is a file of this type.
pub record IsForFile (os : Platform) (get_vhost : AnyVhost) (mess : Leftovers) (c : Client)
    (method uri fields : Bytes) (m : HttpMethod) (v : Vhost) (root path type : Bytes) (fd : ℕ)
    (w : os.World) : Type 0 where
  pub request : IsRequest c (mess.behind c) method uri fields m
  pub complete : IsComplete c (mess.behind c)
  pub located :
      IsLocated os get_vhost c.vhost (headers_after c fields) (mess.last c) uri v root path w
  pub waiting : IsWaiting c m (uri_of (mess.last c) uri) path v
  pub file :
      IsFileAt os
        (understood os c m (headers_after c fields) (mess.last c) uri v root path w)
        path
        root
        (os.basename (local_path root (uri_of (mess.last c) uri)))
        type
        fd
        w

-- The client with the file open, when its answer is sent.
abbrev pub answered :
    (os : Platform)
    → Leftovers
    → Client
    → HttpMethod
    → Bytes
    → Bytes
    → Vhost
    → Bytes
    → Bytes
    → Bytes
    → ℕ
    → os.World
    → Client
answered os mess c m uri fields v root path type fd w = connected (
    opened fd (size_of os path fd w).0 type
      (understood os c m (headers_after c fields) (mess.last c) uri v root path w))
