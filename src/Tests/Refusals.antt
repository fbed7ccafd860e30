-- ===== src/Tests/Refusals.antt =====
-- Requests that are refused, in the environment of `wire`.
use sillyweb.Base.{◌≡◌, refl, true, [], some, none, codes, c_str, is_space}
use sillyweb.Client.{Client, no_flags}
use sillyweb.Dispatch.{dispatch_request}
use sillyweb.Dispatch.Refusal.{dispatch_request-bad_line}
use sillyweb.Request.Line.{skip_space, scan_word}
use sillyweb.Request.Line.{split_at, scan_request_line}
use sillyweb.Request.{text_at}
use sillyweb.Request.Parse.{AnyVhost, parse_request}
use sillyweb.Service.{HttpMethod, get_request_handler}
use sillyweb.Tests.Env.{arena, wire, guest}

abbrev no_host : AnyVhost
no_host name = none

bad_line :
    scan_request_line (split_at b'\n' (text_at (guest (codes "BAD\n\n")).inputbuffer [])).0 ≡ none
unfolding scan_request_line split_at c_str skip_space scan_word is_space
bad_line = refl

dispatch_request-bad_line_example :
    (c' : Client) × (parse_request
        (wire (λ t. t))
        arena
        0
        no_host
        []
        (guest (codes "BAD\n\n"))
        ([], [])
      ≡ some c')
    × (c'.result_code ≡ 400)
    × (dispatch_request (wire (λ t. t)) arena [] 0 c' ([], []) ≡ none)
dispatch_request-bad_line_example =
    dispatch_request-bad_line (wire (λ t. t)) arena 0 no_host [] (codes "BAD\n\n")
      (guest (codes "BAD\n\n")) [] 0 ([], []) ([], []) refl refl bad_line

abbrev get_method : HttpMethod
get_method = record { method = codes "GET"; handler = get_request_handler }

-- A request of HTTP/1.1 for a file that is not there.
abbrev lost : Client
lost = record (guest []) {
  method = some get_method;
  result_code = 404;
  flags = record no_flags { http_1_1 = true; close = true };
}
