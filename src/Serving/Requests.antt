-- ===== src/Serving/Requests.antt =====
-- The result code of a client, over the parsing and the dispatch of a request.
use sillyweb.Base.{
  ℕ, refl, ◌&&◌, not, inl, inr, true, false, List, Option, none, some, ◌==◌, Bytes, codes, strstr,
  Option-cases, Bool-cases,
}
use sillyweb.Memory.{Allocator}
use sillyweb.Platform.{Platform}
use sillyweb.Service.{Vhost}
use sillyweb.Client.{Client}
use sillyweb.Log.{llog_client}
use sillyweb.Listing.{generate_dir_listing, listing_in, append_pieces, page_pieces, residual_path}
use sillyweb.Request.{is_some, is_client_request_complete}
use sillyweb.Request.Parse.{AnyVhost, parse_request, set_code}
use sillyweb.Request.Codes.{IsClosed, accepted, parse_request-keeps}
use sillyweb.Cgi.{run_cgi, store_from, cgi_environment, free_array}
use sillyweb.Dispatch.{serve_path, answer, serve_at, accept_request, dispatch_request}
use sillyweb.Serving.{Leftovers, answer_request}
use sillyweb.Serving.Codes.{Codes, Codes-bind}
use sillyweb.Serving.Answers.{IsSoundCode, answer-Codes, refuse_request-Codes, serve_file-Codes}

accepted-IsSoundCode : (n : ℕ) → IsSoundCode n → IsSoundCode (accepted n)
accepted-IsSoundCode n h = elim (Bool-cases (n == 0)) [
  | inl zero ↦ rw (accepted, zero) refl
  | inr more ↦ rw (accepted, more) h
]

sound_closed : IsClosed IsSoundCode IsSoundCode
sound_closed = record {
  not_found = refl;
  bad_request = refl;
  not_implemented = refl;
  not_supported = refl;
  done = accepted-IsSoundCode;
}

-- With the world beside it.
beside : {W : Type 0} → W → Option Client → Option (Client × W)
beside w none = none
beside w (some c) = some (c, w)

module _ (os : Platform) (mem : Allocator) where
  open os use {World}

  listing_in-Codes :
      (P : ℕ → Type 0) (c : Client) (v : Vhost) (dir root : Bytes) (w : World)
      → P c.result_code
      → Codes P (beside w (listing_in os mem c v dir root w))
  unfolding listing_in beside
  listing_in-Codes P c v dir root w h =
      elim (Option-cases (
        append_pieces mem c.outputbuffer (page_pieces os mem c v dir (residual_path dir root) w))) [
          | inl e ↦ rw (listing_in, e) tt
          | inr (b, e) ↦ rw (listing_in, e) h
        ]

  generate_dir_listing-Codes :
      (P : ℕ → Type 0) (c : Client) (dir : Bytes) (w : World)
      → P c.result_code
      → Codes P (beside w (generate_dir_listing os mem c dir w))
  unfolding generate_dir_listing beside
  generate_dir_listing-Codes P c dir w h = elim (Option-cases c.vhost) [
    | inl e ↦ rw (generate_dir_listing, e) tt
    | inr (v, e) ↦ elim (Option-cases v.document_root) [
      | inl e' ↦ rw (generate_dir_listing, e, e') tt
      | inr (root, e') ↦ rw (generate_dir_listing, e, e') (listing_in-Codes P c v dir root w h)
    ]
  ]

  serve_path-Codes :
      (path : Bytes) (c : Client) (w : World)
      → IsSoundCode c.result_code
      → Codes IsSoundCode (serve_path os mem path c w)
  unfolding serve_path set_code beside
  serve_path-Codes path c w h = elim (Bool-cases (os.is_file path w)) [
    | inl file ↦ rw (serve_path, file) (serve_file-Codes os mem c w h)
    | inr no_file ↦ elim (Bool-cases (os.is_dir path w)) [
      | inr nothing ↦ rw (serve_path, no_file, nothing) refl
      | inl dir ↦
          rw (serve_path, no_file, dir)
            (from_listing (generate_dir_listing os mem (set_code 200 c) path w)
              (generate_dir_listing-Codes IsSoundCode (set_code 200 c) path w refl))
    ]
  ]
    where
      from_listing :
          (o : Option Client)
          → Codes IsSoundCode (beside w o)
          → Codes IsSoundCode (elim o [ none ↦ none | some c' ↦ some (c', w) ])
      from_listing none h = tt
      from_listing (some c) h = h

module _ (os : Platform) (mem : Allocator) (argp : List (Option Bytes)) (i : ℕ) where
  open os use {World}

  serve_at-Codes :
      (path root : Bytes) (v : Vhost) (c : Client) (w : World)
      → IsSoundCode c.result_code
      → Codes IsSoundCode (serve_at os mem argp i path root v c w)
  unfolding serve_at run_cgi free_array set_code
  serve_at-Codes path root v c w h =
      elim (Bool-cases (is_some (strstr path root) && not c.is_cgi_request)) [
        | inl below ↦ rw (serve_at, below) (serve_path-Codes os mem path c w h)
        | inr other ↦ elim (Bool-cases c.is_cgi_request) [
          | inl cgi ↦ elim (Option-cases (store_from argp i (cgi_environment c v))) [
            | inl e ↦ rw (serve_at, run_cgi, other, cgi, e) tt
            | inr (argp', e) ↦ rw (serve_at, run_cgi, other, cgi, e) tt
          ]
          | inr outside ↦ rw (serve_at, other, outside) refl
        ]
      ]

  accept_request-Codes :
      (c : Client) (w : World)
      → IsSoundCode c.result_code
      → Codes IsSoundCode (accept_request os mem argp i c w)
  unfolding accept_request
  accept_request-Codes c w h = elim (Option-cases c.cleanlocalpath) [
    | inl e ↦ rw (accept_request, e) tt
    | inr (path, e) ↦ elim (Option-cases c.vhost) [
      | inl e' ↦ rw (accept_request, e, e') tt
      | inr (v, e') ↦ elim (Option-cases v.document_root) [
        | inl e'' ↦ rw (accept_request, e, e', e'') tt
        | inr (root, e'') ↦
            rw (accept_request, e, e', e'')
              (Codes-bind IsSoundCode IsSoundCode (serve_at os mem argp i path root v c w)
                (λ r. answer os mem r.0.method r.0 r.1) (serve_at-Codes path root v c w h)
                λ r k. answer-Codes os mem IsSoundCode r.0.method r.0 r.1 k)
      ]
    ]
  ]

  dispatch_request-Codes :
      (c : Client) (w : World)
      → IsSoundCode c.result_code
      → Codes IsSoundCode (dispatch_request os mem argp i c w)
  unfolding dispatch_request
  dispatch_request-Codes c w h = elim (Bool-cases (llog_client os c (codes "dispatch") w)) [
    | inr over ↦ rw (dispatch_request, over) tt
    | inl fits ↦ elim (Bool-cases (c.result_code == 200)) [
      | inl ok ↦ rw (dispatch_request, fits, ok) (accept_request-Codes c w h)
      | inr bad ↦ rw (dispatch_request, fits, bad) (refuse_request-Codes os mem c w h)
    ]
  ]

module _ (os : Platform) (mem : Allocator) (get_vhost : AnyVhost) (mess : Leftovers) where
  open os use {World}

  pub answer_request-Codes :
      (c : Client) (w : World)
      → IsSoundCode c.result_code
      → Codes IsSoundCode (answer_request os mem get_vhost mess c w)
  unfolding answer_request
  answer_request-Codes c w h =
      elim (Option-cases (is_client_request_complete c.inputbuffer (mess.behind c))) [
        | inl e ↦ rw (answer_request, e) tt
        | inr (false, e) ↦ rw (answer_request, e) h
        | inr (true, e) ↦
            elim (Option-cases (parse_request os mem (mess.last c) get_vhost (mess.behind c) c w)) [
              | inl e' ↦ rw (answer_request, e, e') tt
              | inr (c', e') ↦
                  rw (answer_request, e, e')
                    (dispatch_request-Codes os mem (mess.argp c) (mess.index c) c' w (
                      parse_request-keeps sound_closed os mem (mess.last c) get_vhost
                        (mess.behind c) c c' w h e'))
            ]
      ]
