-- ===== src/Http.antt =====
-- http.h and http.c: the result codes and their texts.
pub mod Texts
use sillyweb.Base.{
  ℕ, Bool, true, false, List, [], ◌∷◌, Option, none, some, ◌==◌, if◌then◌else◌, Bytes, codes,
}

abbrev pub http_result_ok : ℕ
http_result_ok = 200

abbrev pub http_result_internal_server_error : ℕ
http_result_internal_server_error = 500

abbrev pub http_result_not_found : ℕ
http_result_not_found = 404

abbrev pub http_result_accepted : ℕ
http_result_accepted = 202

abbrev pub http_result_no_content : ℕ
http_result_no_content = 204

abbrev pub http_result_bad_request : ℕ
http_result_bad_request = 400

abbrev pub http_result_unauthorized : ℕ
http_result_unauthorized = 401

abbrev pub http_result_forbidden : ℕ
http_result_forbidden = 403

abbrev pub http_result_method_not_allowed : ℕ
http_result_method_not_allowed = 405

abbrev pub http_result_not_accepted : ℕ
http_result_not_accepted = 406

abbrev pub http_result_request_timeout : ℕ
http_result_request_timeout = 408

abbrev pub http_result_uri_too_long : ℕ
http_result_uri_too_long = 414

abbrev pub http_result_not_implemented : ℕ
http_result_not_implemented = 501

abbrev pub http_result_http_version_not_supported : ℕ
http_result_http_version_not_supported = 505

-- `http_error_codes_t`
pub record HttpErrorCode : Type 0 where
  pub result_code : ℕ
  pub result_string : Bytes

-- The table. No entry with a NULL string ends it.
abbrev pub http_errors : List HttpErrorCode
http_errors =
    record { result_code = http_result_ok; result_string = codes "OK" }
    ∷ record {
      result_code = http_result_internal_server_error;
      result_string = codes "some shit be broken, we're not good at technology";
    }
    ∷ record {
      result_code = http_result_not_found;
      result_string = codes "oh, you were searious about wanting that?";
    }
    ∷ record { result_code = http_result_accepted; result_string = codes "sure, why not" }
    ∷ record {
      result_code = http_result_no_content;
      result_string = codes "wait.. i know i was thinking of something";
    }
    ∷ record {
      result_code = http_result_bad_request;
      result_string = codes "wait, that didnt make any sense";
    }
    ∷ record { result_code = http_result_unauthorized; result_string = codes ".. no.." }
    ∷ record { result_code = http_result_forbidden; result_string = codes ".. fuck no.." }
    ∷ record { result_code = http_result_method_not_allowed; result_string = codes "... uh.. nah." }
    ∷ record { result_code = http_result_not_accepted; result_string = codes "nope" }
    ∷ record {
      result_code = http_result_request_timeout;
      result_string = codes "...hey, bro.. its puff puff pass and your camping..";
    }
    ∷ record {
      result_code = http_result_uri_too_long;
      result_string = codes ".. you just sort of tailed off there without finishing your thought";
    }
    ∷ record {
      result_code = http_result_not_implemented;
      result_string = codes "yeah I was feeling lazy and didnt do it yet";
    }
    ∷ record {
      result_code = http_result_http_version_not_supported;
      result_string = codes "woah.. you think this is some microsoft shit?";
    }
    ∷ []

-- The loop over the table from some entry on; behind the last entry it reads outside the table.
unfoldable pub result_text_from : List HttpErrorCode → ℕ → Option Bytes
result_text_from [] code = none
result_text_from (e ∷ es) code =
    if e.result_code == code then some e.result_string else result_text_from es code

-- `none` stands for a read outside the table; the final `return` is never reached by the loop's
-- own test.
unfoldable pub get_http_result_text : ℕ → Option Bytes
unfolding result_text_from
get_http_result_text code = result_text_from http_errors code
