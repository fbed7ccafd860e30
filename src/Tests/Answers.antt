-- ===== src/Tests/Answers.antt =====
-- Whole requests, answers and transfers in the environment of `wire`.
use mathlib.Core.Path.{subst}
use sillyweb.Base.{
  ◌≡◌, ◌≢◌, refl, true, false, [], ◌∷◌, ◌++◌, none, some, if◌then◌else◌, take, Bytes, codes, pos,
  arith,
}
use sillyweb.Buffer.Content.{content}
use sillyweb.Client.{Client}
use sillyweb.Http.{get_http_result_text}
use sillyweb.Request.Answers.{is_answer, parse_request-answer, parse_request-sticky}
use sillyweb.Request.Parse.{AnyVhost, parse_request}
use sillyweb.Request.Total.{IsServable}
use sillyweb.Response.{client_send_response_code, client_send_headers}
use sillyweb.Response.Stream.{status_line, header_block, response-stream}
use sillyweb.Service.{Vhost}
use sillyweb.Transfer.{plain_transfer_send}
use sillyweb.Transfer.Pump.{IsBounded, fetched, plain_transfer_send-conserves}
use sillyweb.Tests.Env.{
  arena, arena-IsAmple, wire, wire-IsStream, wire-IsLink, sent, guest, site, filled,
}

abbrev one_site : AnyVhost
one_site name = some site

one_site-IsServable : (name : Bytes) (v : Vhost) → one_site name ≡ some v → IsServable (some v)
one_site-IsServable name v e = subst (λ o. IsServable o) e ((λ k. cc k), (λ k. cc k))

abbrev get_a : Client
get_a = guest (codes "GET /a HTTP/1.1\r\nHost: x\r\n\r\n")

parse_request-answer_example :
    (c' : Client) × (parse_request (wire (λ t. t)) arena 0 one_site [] get_a ([], []) ≡ some c')
    × (is_answer c'.result_code ≡ true)
    × (get_http_result_text c'.result_code ≢ none)
parse_request-answer_example =
    parse_request-answer (wire (λ t. t)) arena 0 one_site [] get_a ([], []) one_site-IsServable
      (λ e. cc e) ((λ e. cc e), (λ e. cc e)) refl

-- The same request on a connection that has answered 404 before.
abbrev after_404 : Client
after_404 = record get_a { result_code = 404 }

answered :
    (c' : Client) × (parse_request (wire (λ t. t)) arena 0 one_site [] after_404 ([], []) ≡ some c')
    × (is_answer c'.result_code ≡ true)
    × (get_http_result_text c'.result_code ≢ none)
answered =
    parse_request-answer (wire (λ t. t)) arena 0 one_site [] after_404 ([], []) one_site-IsServable
      (λ e. cc e) ((λ e. cc e), (λ e. cc e)) refl

parse_request-sticky_example : answered.0.result_code ≢ 200
parse_request-sticky_example =
    parse_request-sticky (wire (λ t. t)) arena 0 one_site [] after_404 answered.0 ([], [])
      (omega arith) (omega arith) answered.1

response-stream_example :
    (text : Bytes) × (w₁ : Bytes × Bytes) × (c' : Client) × (w₂ : Bytes × Bytes)
    × (get_http_result_text 404 ≡ some text)
    × (client_send_response_code (wire (λ t. t)) after_404 ([], []) ≡ some w₁)
    × (client_send_headers (wire (λ t. t)) arena after_404 w₁ ≡ some (c', w₂))
    × (c'.outbound_headers
        ≡ []
          ++ record {
            header_name = codes "Connection";
            header_value = if false then codes "Close" else codes "Keep-Alive";
          }
            ∷ [])
    × (sent w₂
        ≡ [] ++ (status_line after_404 text ++ (header_block c'.outbound_headers ++ codes "\r\n")))
response-stream_example =
    response-stream (wire (λ t. t)) arena sent wire-IsStream arena-IsAmple after_404 ([], []) refl

-- A client that has sent nothing yet of a file.
abbrev pumping : Client
pumping = record get_a {
  pump_fd = pos 5;
  transfer_in_progress = true;
  outputbuffer = filled (codes "ab");
}

pumping-IsBounded : IsBounded pumping.outputbuffer
pumping-IsBounded = record {
  valid = record { sized = refl; fits = omega arith };
  bounded = omega arith;
}

plain_transfer_send-conserves_example :
    (c' : Client) × (w' : Bytes × Bytes) × (plain_transfer_send
        (wire (take 3))
        arena
        pumping
        (codes "cdef", [])
      ≡ some (c', w'))
    × IsBounded c'.outputbuffer
    × (sent w' ++ content c'.outputbuffer
        ≡ codes "ab" ++ fetched (wire (take 3)) pumping (codes "cdef", []))
plain_transfer_send-conserves_example =
    plain_transfer_send-conserves (wire (take 3)) arena arena-IsAmple sent (wire-IsLink 3) pumping
      (codes "cdef", []) pumping-IsBounded
