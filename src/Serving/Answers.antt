-- ===== src/Serving/Answers.antt =====
-- The result code of a client, over the answer to a request.
use sillyweb.Base.{
  ℕ, ◌≡◌, refl, inl, inr, Bool, true, false, Option, none, some, Bytes, codes, arith, if◌then◌else◌,
  is_nonzero, Option-cases,
}
use sillyweb.Memory.{Allocator}
use sillyweb.Buffer.{append_buffer}
use sillyweb.Headers.{add_header}
use sillyweb.Platform.{Platform}
use sillyweb.Service.{HttpMethod}
use sillyweb.Client.{Client, clear_client}
use sillyweb.Mime.{get_mime_from_filename}
use sillyweb.Transfer.{transfer_open}
use sillyweb.Request.Parse.{set_code}
use sillyweb.Response.{add_connection, client_send_response_code, client_send_headers}
use sillyweb.Dispatch.{
  typed, finish_as, log_as, after_headers, refuse_request, refusal_message, answer_message,
  serve_file, answer,
}
use sillyweb.Dispatch.Refusal.{client_send_headers-client}
use sillyweb.Serving.Codes.{is_sound, Codes, Codes-bind, transfer_open-Codes}

abbrev pub IsSoundCode : ℕ → Type 0
IsSoundCode n = is_sound n ≡ true

module _ (os : Platform) (mem : Allocator) where
  open os use {World}

  client_send_headers-Codes :
      (P : ℕ → Type 0) (c : Client) (w : World)
      → P c.result_code
      → Codes P (client_send_headers os mem c w)
  unfolding add_connection
  client_send_headers-Codes P c w h = elim (client_send_headers-client os mem c w) [
    | inl e ↦ rw e tt
    | inr (w', e) ↦ rw e h
  ]

  log_as-Codes :
      (P : ℕ → Type 0) (f : HttpMethod → Client → Bytes) (m : Option HttpMethod)
      (r : Client × World)
      → P r.0.result_code
      → Codes P (log_as os f m r)
  unfolding log_as
  log_as-Codes P f none r h = tt
  log_as-Codes P f (some m) r h = ground arith

  pub answer-Codes :
      (P : ℕ → Type 0) (m : Option HttpMethod) (c : Client) (w : World)
      → P c.result_code
      → Codes P (answer os mem m c w)
  unfolding answer
  answer-Codes P none c w h = tt
  answer-Codes P (some m) c w h = elim (Option-cases (client_send_response_code os c w)) [
    | inl e ↦ rw (answer, e) tt
    | inr (w', e) ↦
        rw (answer, e)
          (Codes-bind P P (client_send_headers os mem c w') _ (client_send_headers-Codes P c w' h)
            λ r k. log_as-Codes P answer_message r.0.method r k)
  ]

  finish_as-code :
      (a b : Bool) (c : Client) (w : World) → (finish_as os a b c w).0.result_code ≡ c.result_code
  unfolding finish_as clear_client
  finish_as-code true b c w = refl
  finish_as-code false true c w = refl
  finish_as-code false false c w = refl

  after_headers-Codes :
      (c : Client) (w : World)
      → IsSoundCode c.result_code
      → Codes IsSoundCode (after_headers os mem c w)
  unfolding after_headers
  after_headers-Codes c w h =
      elim (Option-cases (append_buffer mem c.outputbuffer (codes "<html>") 6)) [
        | inl e ↦ rw (after_headers, e) tt
        | inr ((b, _), e) ↦
            let out : Client = record c { outputbuffer = b } in
            let r = finish_as os c.flags.http_1_1 c.flags.http_1_0 out w in
            rw (after_headers, e)
              (log_as-Codes IsSoundCode refusal_message r.0.method r
                (rw (finish_as-code c.flags.http_1_1 c.flags.http_1_0 out w) h))
      ]

  pub refuse_request-Codes :
      (c : Client) (w : World)
      → IsSoundCode c.result_code
      → Codes IsSoundCode (refuse_request os mem c w)
  unfolding refuse_request
  refuse_request-Codes c w h = elim (Option-cases (client_send_response_code os (typed mem c) w)) [
    | inl e ↦ rw (refuse_request, e) tt
    | inr (w', e) ↦
        rw (refuse_request, e)
          (Codes-bind IsSoundCode IsSoundCode (client_send_headers os mem (typed mem c) w') _
            (client_send_headers-Codes IsSoundCode (typed mem c) w' h)
            λ r k. after_headers-Codes r.0 r.1 k)
  ]

  typed_file : Client × World → Option (Client × World)
  typed_file r =
      if is_nonzero r.0.pump_fd
      then elim r.0.filename [
        | none ↦ none
        | some name ↦ elim (get_mime_from_filename name) [
          | none ↦ none
          | some type ↦ some (
            record r.0 {
              outbound_headers = add_header mem r.0.outbound_headers (codes "Content-Type") type;
            },
            r.1,
          )
        ]
      ]
      else some (set_code 500 r.0, r.1)

  typed_file-Codes :
      (r : Client × World) → IsSoundCode r.0.result_code → Codes IsSoundCode (typed_file r)
  unfolding typed_file set_code
  typed_file-Codes r h = ground arith

  pub serve_file-Codes :
      (c : Client) (w : World)
      → IsSoundCode c.result_code
      → Codes IsSoundCode (serve_file os mem c w)
  unfolding serve_file typed_file
  serve_file-Codes c w h =
      Codes-bind IsSoundCode IsSoundCode (transfer_open os mem c.transfer c w) typed_file
        (transfer_open-Codes os mem IsSoundCode c.transfer c w h) typed_file-Codes
