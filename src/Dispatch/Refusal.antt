-- ===== src/Dispatch/Refusal.antt =====
-- What a client gets that is refused, and when the server fails instead.
use sillyweb.Base.{
  ℕ, List, Bool-cases, if_false, ◌==◌, arith, ◌≡◌, refl, ap, ◌∙◌, ◌⊎◌, Bool, true, false, Option,
  none, some, Bytes, codes, Option-cases, elim_some, inl, inr,
}
use sillyweb.Memory.{Allocator}
use sillyweb.Buffer.{Buffer, append_buffer}
use sillyweb.Platform.{Platform}
use sillyweb.Client.{Client, clear_client}
use sillyweb.Http.{http_result_ok}
use sillyweb.Log.{llog_client}
use sillyweb.Request.{text_at}
use sillyweb.Request.Line.{split_at, scan_request_line}
use sillyweb.Request.Parse.{AnyVhost, set_code, greet, cut_line, parse_line, parse_request}
use sillyweb.Response.{
  add_connection, send_headers_from, client_send_response_code, client_send_headers, send_text,
}
use sillyweb.Dispatch.{
  typed, finish_as, finish_refusal, refusal_message, log_as, dispatch_request, after_headers,
  refuse_request,
}

module _ (os : Platform) (mem : Allocator) where
  open os use {World}

  pub finish_as-method :
      (a b : Bool) (c : Client) (w : World) → (finish_as os a b c w).0.method ≡ c.method
  unfolding finish_as clear_client
  finish_as-method true b c w = refl
  finish_as-method false true c w = refl
  finish_as-method false false c w = refl

  after_headers-none : (c : Client) (w : World) → c.method ≡ none → after_headers os mem c w ≡ none
  unfolding after_headers
  after_headers-none c w h =
      elim (Option-cases (append_buffer mem c.outputbuffer (codes "<html>") 6)) [
        | inl e ↦ rw (after_headers, e)
        | inr ((b, ok), e) ↦
            let r = finish_refusal os (record c { outputbuffer = b }) w in
            rw (after_headers, e)
              (ap (λ o. log_as os refusal_message o r)
                  (finish_as-method _ _ (record c { outputbuffer = b }) w ∙ h)
                ∙ unfold log_as in refl)
      ]

  -- The client that `client_send_headers` leaves.
  pub client_send_headers-client :
      (c : Client) (w : World)
      → (client_send_headers os mem c w ≡ none)
        ⊎ ((w' : World) × (client_send_headers os mem c w ≡ some (add_connection mem c, w')))
  unfolding client_send_headers
  client_send_headers-client c w =
      elim (Option-cases (
        send_headers_from os mem (add_connection mem c).outbound_headers (add_connection mem c)
          w)) [
            | inl e ↦ inl (rw (client_send_headers, e))
            | inr (w', e) ↦
                inr (
                  send_text os (add_connection mem c) (codes "\r\n") w',
                  rw (client_send_headers, e),
                )
          ]

  -- The client that the headers leave.
  pub client_send_headers-left :
      (c c' : Client) (w w' : World)
      → client_send_headers os mem c w ≡ some (c', w')
      → c' ≡ add_connection mem c
  client_send_headers-left c c' w w' e = elim (client_send_headers-client c w) [
    | inl absent ↦ absurd (cc (absent, e))
    | inr (w'', e') ↦ cc (e, e')
  ]

  refuse_request-none :
      (c : Client) (w : World) → c.method ≡ none → refuse_request os mem c w ≡ none
  unfolding refuse_request add_connection
  refuse_request-none c w h = elim (Option-cases (client_send_response_code os (typed mem c) w)) [
    | inl e ↦ rw (refuse_request, e)
    | inr (w', e) ↦ elim (client_send_headers-client (typed mem c) w') [
      | inl e' ↦ rw (refuse_request, e, e')
      | inr (w'', e') ↦
          rw (refuse_request, e, e') (after_headers-none (add_connection mem (typed mem c)) w'' h)
    ]
  ]

  parse_line-bad :
      (junk : ℕ) (get_vhost : AnyVhost) (rest : Option Bytes) (c : Client) (w : World)
      → (c' : Client) × (parse_line os mem junk get_vhost none rest c w ≡ some c')
        × (c'.result_code ≡ 400)
        × (c'.method ≡ c.method)
  unfolding parse_line set_code
  parse_line-bad junk get_vhost rest c w = (_, refl, refl, refl)

  dispatch_request-none :
      (argp : List (Option Bytes)) (i : ℕ) (c : Client) (w : World)
      → c.method ≡ none
      → c.result_code ≡ 400
      → dispatch_request os mem argp i c w ≡ none
  unfolding dispatch_request
  dispatch_request-none argp i c w h code =
      elim (Bool-cases (llog_client os c (codes "dispatch") w)) [
        | inl logged ↦
            rw (dispatch_request, logged)
              (if_false {b = c.result_code == http_result_ok} _ _ (ground (arith, code))
                ∙ refuse_request-none c w h)
        | inr long ↦ rw (dispatch_request, long)
      ]

  -- A request line that is not understood, on a connection that had no method yet: `parse_request`
  -- answers 400, and then `dispatch_request` is a fault: it reads the method's name for the log
  -- through NULL.
  pub dispatch_request-bad_line :
      (junk : ℕ) (get_vhost : AnyVhost) (behind block : Bytes) (c : Client)
      (argp : List (Option Bytes)) (i : ℕ) (w w' : World)
      → c.method ≡ none
      → c.inputbuffer.buffer ≡ some block
      → scan_request_line (split_at b'\n' (text_at c.inputbuffer behind)).0 ≡ none
      → (c' : Client) × (parse_request os mem junk get_vhost behind c w ≡ some c')
        × (c'.result_code ≡ 400)
        × (dispatch_request os mem argp i c' w' ≡ none)
  unfolding parse_request greet
  dispatch_request-bad_line junk get_vhost behind block c argp i w w' h filled bad =
      let input : Buffer = c.inputbuffer in
      let rest = (split_at b'\n' (text_at c.inputbuffer behind)).1 in
      let started : Client = record (greet os mem junk get_vhost c w) {
        inputbuffer = record input { buffer = some (cut_line block) };
      } in
      let (c', e, code, same) = parse_line-bad junk get_vhost rest started w in
      let parsed : parse_request os mem junk get_vhost behind c w ≡ some c' =
        elim_some c.inputbuffer.buffer _ block filled
        ∙ ap (λ r. parse_line os mem junk get_vhost r rest started w) bad
        ∙ e in
      (c', parsed, code, dispatch_request-none argp i c' w' (same ∙ h) code)
