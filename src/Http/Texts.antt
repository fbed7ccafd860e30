-- ===== src/Http/Texts.antt =====
-- Which codes have a text.
use sillyweb.Base.{
  ap, ==_iff, if◌then◌else◌, IsFirst, first_value, first_value-none, first_value-some, ℕ, ◌≡◌, ◌≢◌,
  ◌↔◌, ◌⊎◌, inl, inr, refl, Bool, true, ◌||◌, ◌<◌, ◌≤◌, length, List, [], ◌∷◌, Option, none, some,
  ◌==◌, All, arith, Bytes, decimal,
}
use sillyweb.Http.{
  HttpErrorCode, http_errors, result_text_from, get_http_result_text, http_result_ok,
  http_result_not_found, http_result_bad_request, http_result_not_implemented,
  http_result_http_version_not_supported, http_result_forbidden, http_result_internal_server_error,
}

result_text_from-none :
    (es : List HttpErrorCode) (code : ℕ)
    → (result_text_from es code ≡ none) ↔ All (λ e. e.result_code ≢ code) es
unfolding result_text_from
result_text_from-none [] code = ground arith
result_text_from-none (e ∷ es) code = ground (arith, result_text_from-none es code)

-- The search for the text of a code leaves the table exactly if no entry of the table has the code.
pub get_http_result_text-none :
    (code : ℕ) → (get_http_result_text code ≡ none) ↔ All (λ e. e.result_code ≢ code) http_errors
unfolding get_http_result_text
get_http_result_text-none code = result_text_from-none http_errors code

result_text_from-first_value :
    (es : List HttpErrorCode) (code : ℕ)
    → result_text_from es code ≡ first_value (λ e. e.result_code == code) (λ e. e.result_string) es
unfolding result_text_from first_value
result_text_from-first_value [] code = refl
result_text_from-first_value (e ∷ es) code =
    ap (λ o. if e.result_code == code then some e.result_string else o)
      (result_text_from-first_value es code)

-- The text of a code is that of the first entry of the table that has the code, and the search
-- leaves the table exactly if no entry has it.
pub get_http_result_text-IsFirst :
    (code : ℕ)
    → ((get_http_result_text code ≡ none) ↔ All (λ e. ¬ (e.result_code ≡ code)) http_errors)
      × ((text : Bytes)
          → (get_http_result_text code ≡ some text) ↔ (
              (e : HttpErrorCode) × IsFirst (λ e. e.result_code ≡ code) e http_errors
              × (e.result_string ≡ text)))
unfolding get_http_result_text
get_http_result_text-IsFirst code =
    let test : HttpErrorCode → Bool = λ e. e.result_code == code in
    let iff : (e : HttpErrorCode) → (test e ≡ true) ↔ (e.result_code ≡ code) =
      λ e. ==_iff e.result_code code in
    rw (result_text_from-first_value http_errors code) (
      first_value-none test (λ e. e.result_string) (λ e. e.result_code ≡ code) iff http_errors,
      λ text.
          first_value-some test (λ e. e.result_string) (λ e. e.result_code ≡ code) iff http_errors
            text,
    )

-- The codes that the handlers of main.c set.
abbrev pub is_used : ℕ → Bool
is_used n =
    n == http_result_ok
    || n == http_result_not_found
    || n == http_result_bad_request
    || n == http_result_not_implemented
    || n == http_result_http_version_not_supported
    || n == http_result_forbidden
    || n == http_result_internal_server_error

used_cases :
    (n : ℕ)
    → is_used n ≡ true
    → (n ≡ 200) ⊎ (n ≡ 404) ⊎ (n ≡ 400) ⊎ (n ≡ 501) ⊎ (n ≡ 505) ⊎ (n ≡ 403) ⊎ (n ≡ 500)
used_cases n h = ground arith

-- What the printing of a code relies on: the text is in the table and fits into 256 bytes, and the
-- code has three digits.
pub record IsPrinted (n : ℕ) : Type 0 where
  pub text : Bytes
  pub is_text : get_http_result_text n ≡ some text
  pub text_fits : length text < 256
  pub code_fits : length (decimal n) ≤ 3

abbrev text_or_nil : Option Bytes → Bytes
text_or_nil none = []
text_or_nil (some t) = t

IsPrinted-at :
    (n : ℕ)
    → get_http_result_text n ≡ some (text_or_nil (get_http_result_text n))
    → length (text_or_nil (get_http_result_text n)) < 256
    → length (decimal n) ≤ 3
    → IsPrinted n
IsPrinted-at n e h k = record {
  text = text_or_nil (get_http_result_text n);
  is_text = e;
  text_fits = h;
  code_fits = k;
}

pub is_used-IsPrinted : (n : ℕ) → is_used n ≡ true → IsPrinted n
unfolding get_http_result_text decimal
is_used-IsPrinted n h = elim (used_cases n h) [
  | inl e ↦ rw e (IsPrinted-at 200 refl (omega arith) (omega arith))
  | inr (inl e) ↦ rw e (IsPrinted-at 404 refl (omega arith) (omega arith))
  | inr (inr (inl e)) ↦ rw e (IsPrinted-at 400 refl (omega arith) (omega arith))
  | inr (inr (inr (inl e))) ↦ rw e (IsPrinted-at 501 refl (omega arith) (omega arith))
  | inr (inr (inr (inr (inl e)))) ↦ rw e (IsPrinted-at 505 refl (omega arith) (omega arith))
  | inr (inr (inr (inr (inr (inl e))))) ↦ rw e (IsPrinted-at 403 refl (omega arith) (omega arith))
  | inr (inr (inr (inr (inr (inr e))))) ↦ rw e (IsPrinted-at 500 refl (omega arith) (omega arith))
]
