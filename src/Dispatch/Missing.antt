-- ===== src/Dispatch/Missing.antt =====
-- The answer of `dispatch_request` to a request that was accepted, for a path where nothing is.
use sillyweb.Base.{
  ℕ, ◌≡◌, ◌⊎◌, refl, true, false, List, ◌++◌, Option, some, if◌then◌else◌, Bytes, codes, strstr,
  Bool-cases, inl, inr,
}
use sillyweb.Memory.{Allocator, IsAmple}
use sillyweb.Http.{get_http_result_text}
use sillyweb.Http.Texts.{is_used}
use sillyweb.Log.Fits.{IsClock}
use sillyweb.Platform.{Platform}
use sillyweb.Service.{HttpMethod, Vhost}
use sillyweb.Client.{Client}
use sillyweb.Request.{is_some}
use sillyweb.Request.Parse.{set_code}
use sillyweb.Response.Stream.{IsStream, status_line, header_block}
use sillyweb.Dispatch.{serve_path, serve_at, dispatch_request}
use sillyweb.Dispatch.Accepted.{IsAccepted, connected, dispatch_request-answer}

-- Not found, or forbidden where the text of the document root does not occur in the path.
abbrev pub missing_code : Bytes → Bytes → ℕ
missing_code path root = if is_some (strstr path root) then 404 else 403

-- The client with that code, and with a "Connection" header behind its others.
abbrev pub answered : ℕ → Client → Client
answered code c = connected (set_code code c)

-- The text of the document root does not occur in the path, or nothing is there.
abbrev pub IsAbsent : (os : Platform) → Bytes → Bytes → os.World → Type 0
IsAbsent os path root w =
    (is_some (strstr path root) ≡ false)
    ⊎ ((os.is_file path w ≡ false) × (os.is_dir path w ≡ false))

missing_code-is_used : (path root : Bytes) → is_used (missing_code path root) ≡ true
missing_code-is_used path root = elim (Bool-cases (is_some (strstr path root))) [
  | inl below ↦ rw below refl
  | inr outside ↦ rw outside refl
]

module _ (os : Platform) (mem : Allocator) (argp : List (Option Bytes)) (i : ℕ) where
  open os use {World}

  serve_at-missing :
      (path root : Bytes) (v : Vhost) (c : Client) (w : World)
      → c.is_cgi_request ≡ false
      → IsAbsent os path root w
      → serve_at os mem argp i path root v c w ≡ some (set_code (missing_code path root) c, w)
  unfolding serve_at serve_path
  serve_at-missing path root v c w no_cgi (inl outside) =
      rw (serve_at, outside, no_cgi, ← no_cgi) refl
  serve_at-missing path root v c w no_cgi (inr (no_file, no_dir)) =
      elim (Bool-cases (is_some (strstr path root))) [
        | inl below ↦ rw (serve_at, below, no_cgi, serve_path, no_file, no_dir, ← no_cgi) refl
        | inr outside ↦ rw (serve_at, outside, no_cgi, ← no_cgi) refl
      ]

module _ (os : Platform) (mem : Allocator) (sent : os.World → Bytes) (stream : IsStream os sent)
    (ample : IsAmple mem) (clock : IsClock os) where
  open os use {World}

  -- On a stream that takes every text whole, while there is memory, for a request that
  -- `parse_request` has accepted, that is not for CGI, and whose texts fit the lines of the log: if
  -- the text of the document root does not occur in the path, or if `stat` finds neither a file nor
  -- a directory there, `dispatch_request` sends 403 in the first case and 404 otherwise: the status
  -- line, the headers that were there, a "Connection" header and an empty line, with no body and no
  -- length. A path that has the text of the document root in it anywhere counts as one below it,
  -- wherever it leads. `dispatch_request` then leaves the client as it was, but for its code and
  -- that header: nothing is closed, nothing is cleared, and no transfer begins.
  pub dispatch_request-missing :
      (argp : List (Option Bytes)) (i : ℕ) (c : Client) (w : World) (m : HttpMethod) (v : Vhost)
      (path root : Bytes)
      → IsAccepted c m v path root
      → IsAbsent os path root w
      → (text : Bytes) × (w' : World) × (get_http_result_text (missing_code path root) ≡ some text)
        × (dispatch_request os mem argp i c w ≡ some (answered (missing_code path root) c, w'))
        × (sent w'
            ≡ sent w
              ++ (status_line (set_code (missing_code path root) c) text
                  ++ (header_block (answered (missing_code path root) c).outbound_headers
                      ++ codes "\r\n")))
  unfolding set_code
  dispatch_request-missing argp i c w m v path root h absent =
      let code = missing_code path root in
      dispatch_request-answer os mem sent stream ample clock argp i c (set_code code c) w w m v path
        root h (serve_at-missing os mem argp i path root v c w h.not_cgi absent)
        (record {
          used = missing_code-is_used path root;
          method = h.has_method;
          located = h.has_path;
          short = h.short_line;
        })
