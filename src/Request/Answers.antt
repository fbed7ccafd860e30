-- ===== src/Request/Answers.antt =====
-- What the caller of `parse_request` gets.
use sillyweb.Base.{ℕ, ◌≡◌, ◌≢◌, refl, Bool, true, ◌||◌, none, some, ◌==◌, Bytes, arith}
use sillyweb.Memory.{Allocator}
use sillyweb.Http.{
  get_http_result_text, http_result_ok, http_result_not_found, http_result_bad_request,
  http_result_not_implemented, http_result_http_version_not_supported,
}
use sillyweb.Http.Texts.{get_http_result_text-none}
use sillyweb.Platform.{Platform}
use sillyweb.Service.{Vhost}
use sillyweb.Client.{Client}
use sillyweb.Request.Parse.{AnyVhost, parse_request}
use sillyweb.Request.Codes.{IsClosed, parse_request-keeps}
use sillyweb.Request.Total.{IsServable, parse_request_total}

-- The codes that `parse_request` sets.
abbrev pub is_answer : ℕ → Bool
is_answer n =
    n == http_result_ok
    || n == http_result_not_found
    || n == http_result_bad_request
    || n == http_result_not_implemented
    || n == http_result_http_version_not_supported

-- No code yet, or one that `parse_request` has set.
abbrev pub is_pending : ℕ → Bool
is_pending n = n == 0 || is_answer n

answers : IsClosed (λ n. is_pending n ≡ true) (λ n. is_answer n ≡ true)
answers = record {
  not_found = refl;
  bad_request = refl;
  not_implemented = refl;
  not_supported = refl;
  done = λ n h. ground arith;
}

-- A code other than 0 and 200 stays one.
sticky : IsClosed (λ n. (n ≢ 0) × (n ≢ 200)) (λ n. n ≢ 200)
sticky = record {
  not_found = omega arith;
  bad_request = omega arith;
  not_implemented = omega arith;
  not_supported = omega arith;
  done = λ n h. ground arith;
}

is_answer-text : (n : ℕ) → is_answer n ≡ true → get_http_result_text n ≢ none
is_answer-text n h e = let absent = (get_http_result_text-none n).0 e in ground arith

module _ (os : Platform) (mem : Allocator) (junk : ℕ) (get_vhost : AnyVhost) where
  open os use {World}

  -- On a client whose input buffer has a block and whose virtual host has both roots, while
  -- `get_vhost` gives NULL or such a host, and from a result code of 0, 200, 404, 400, 501 or 505:
  -- `parse_request` ends and reads through no NULL pointer, the result code is one of 200, 404,
  -- 400, 501 and 505, and the table of http.c has a text for it.
  pub parse_request-answer :
      (behind : Bytes) (c : Client) (w : World)
      → ((name : Bytes) → (v : Vhost) → get_vhost name ≡ some v → IsServable (some v))
      → c.inputbuffer.buffer ≢ none
      → IsServable c.vhost
      → is_pending c.result_code ≡ true
      → (c' : Client) × (parse_request os mem junk get_vhost behind c w ≡ some c')
        × (is_answer c'.result_code ≡ true)
        × (get_http_result_text c'.result_code ≢ none)
  parse_request-answer behind c w any_servable filled servable pending =
      let (c', e) =
        parse_request_total os mem junk get_vhost any_servable behind c w filled servable in
      let answer = parse_request-keeps answers os mem junk get_vhost behind c c' w pending e in
      (c', e, answer, is_answer-text c'.result_code answer)

  -- An error code is never taken back: from a result code other than 0 and 200, which a kept
  -- connection has from an earlier request, no request is answered with 200.
  pub parse_request-sticky :
      (behind : Bytes) (c c' : Client) (w : World)
      → c.result_code ≢ 0
      → c.result_code ≢ http_result_ok
      → parse_request os mem junk get_vhost behind c w ≡ some c'
      → c'.result_code ≢ http_result_ok
  parse_request-sticky behind c c' w h k e =
      parse_request-keeps sticky os mem junk get_vhost behind c c' w (h, k) e
