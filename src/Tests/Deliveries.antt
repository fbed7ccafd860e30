-- ===== src/Tests/Deliveries.antt =====
-- A request for a file, from its bytes to the end of the connection, on a wire.
use sillyweb.Base.{
  ℕ, ◌+◌, ◌≤◌, ◌≡◌, refl, inr, true, [], ◌++◌, some, none, Bytes, codes, arith, strstr, same,
  is_space, c_str, same_case, inl,
}
use sillyweb.Client.{Client}
use sillyweb.Headers.{get_header_value}
use sillyweb.Http.{get_http_result_text}
use sillyweb.Mime.{get_mime_from_filename, mime_from}
use sillyweb.Mime.Table.{mime_list}
use sillyweb.Request.{is_some, text_at, find_method, uri_of}
use sillyweb.Request.Fields.{lines, header_of, headers_of}
use sillyweb.Request.Line.{split_at}
use sillyweb.Request.Parse.{AnyVhost, parse_request}
use sillyweb.Request.Located.{IsLocated}
use sillyweb.Request.Understood.{IsRequest, understood, flags_of, parse_request-understood}
use sillyweb.Response.Stream.{status_line, header_block}
use sillyweb.Serving.{Leftovers}
use sillyweb.Serving.Asked.{IsComplete, IsWaiting, IsForFile, headers_after, answered}
use sillyweb.Serving.EndToEnd.{IsFinished, service_turns-delivers}
use sillyweb.Serving.Loop.{IsPolled, alone, service_turns}
use sillyweb.Util.{get_file_ext}
use sillyweb.Platform.{Platform}
use sillyweb.Transfer.Delivery.{IsDelivery}
use sillyweb.Tests.Env.{arena, arena-IsAmple, sent, guest, site}
use sillyweb.Tests.Turns.{whole_wire, to_read, get_method}

abbrev pub fields : Bytes
fields = codes "Host: x\r\n\r\n"

abbrev pub asking : Client
asking = record (guest (codes "GET /a.txt HTTP/1.1\r\nHost: x\r\n\r\n")) {
  outputbuffer = record { buffer = none; len = 0 };
}

abbrev pub any_site : AnyVhost
any_site name = some site

abbrev pub no_mess : Leftovers
no_mess = record { behind = λ c. []; last = λ c. 0; index = λ c. 0; argp = λ c. [] }

pub asking-IsRequest : IsRequest asking [] (codes "GET") (codes "/a.txt") fields get_method
unfolding text_at c_str find_method is_space same_case
asking-IsRequest = record {
  bytes = codes "GET /a.txt HTTP/1.1\r\nHost: x\r\n\r\n";
  has_block = refl;
  has_text = refl;
  method_fits = (omega arith, omega arith, (refl, (refl, (refl, tt))));
  uri_fits = (omega arith, omega arith, (refl, (refl, (refl, (refl, (refl, (refl, tt)))))));
  known = refl;
  no_code = refl;
}

pub asking-IsComplete : IsComplete asking []
unfolding text_at c_str
asking-IsComplete = record {
  long = omega arith;
  ends = inl (codes "GET /a.txt HTTP/1.1\r\nHost: x", [], refl);
}

-- The wire, with a file in the root of the site.
abbrev site_wire : Platform
site_wire = record whole_wire {
  realpath = λ path w. some (codes "/srv/a.txt");
  basename = λ path. codes "a.txt";
}

site_wire-IsDelivery : IsDelivery site_wire to_read sent
site_wire-IsDelivery = record {
  read_count = λ fd n w. refl;
  read_bytes = λ fd n w. refl;
  read_rest = λ fd n w. refl;
  read_quiet = λ fd n w. refl;
  send_takes = λ sock text w. (refl, refl, refl);
  ssl_write_takes = λ ctx text w. (refl, refl, refl);
}

site_wire-IsPolled : IsPolled site_wire to_read sent (λ w. [])
site_wire-IsPolled = record {
  poll_writable = λ fd w e. refl;
  poll_quiet = λ fd w. refl;
  poll_rest = λ fd w. refl;
  poll_pending = λ fd w. refl;
  read_pending = λ fd n w. refl;
  send_pending = λ sock text w. refl;
  ssl_write_pending = λ ctx text w. refl;
}

asking-IsLocated :
    IsLocated site_wire any_site
      (some site)
      (headers_after asking fields)
      0
      (codes "/a.txt")
      site
      (codes "/srv")
      (codes "/srv/a.txt")
      (codes "hello", [])
unfolding lines header_of headers_of get_header_value split_at strstr is_some same
asking-IsLocated = record {
  chosen = inr (codes " x\r", refl, refl);
  has_root = refl;
  cgi = codes "/cgi";
  has_cgi = refl;
  resolved = refl;
  no_cgi = refl;
}

asking-IsWaiting : IsWaiting asking get_method (uri_of 0 (codes "/a.txt")) (codes "/srv/a.txt") site
unfolding uri_of same split_at
asking-IsWaiting = record {
  valid = record { sized = refl; fits = omega arith };
  empty = refl;
  not_cgi = refl;
  short_names = omega arith;
  short_line = omega arith;
}

pub text_type : get_mime_from_filename (codes "a.txt") ≡ some (codes "text/plain")
unfolding get_mime_from_filename mime_from get_file_ext mime_list same
text_type = refl

pub asking-IsForFile :
    IsForFile site_wire any_site no_mess asking
      (codes "GET")
      (codes "/a.txt")
      fields
      get_method
      site
      (codes "/srv")
      (codes "/srv/a.txt")
      (codes "text/plain")
      4
      (codes "hello", [])
unfolding strstr is_some
asking-IsForFile = record {
  request = asking-IsRequest;
  complete = asking-IsComplete;
  located = asking-IsLocated;
  waiting = asking-IsWaiting;
  file = record {
    below = refl;
    is_file = refl;
    is_plain = refl;
    opens = refl;
    named = refl;
    typed = text_type;
  };
}

abbrev reply : Client
reply =
    answered site_wire no_mess asking get_method (codes "/a.txt") fields site (codes "/srv")
      (codes "/srv/a.txt") (codes "text/plain") 4 (codes "hello", [])

service_turns-delivers_example :
    (text : Bytes) × (k : ℕ) × (c₁ : Client) × (w₁ : Bytes × Bytes) × (c₂ : Client) × (w₂ : Bytes
      × Bytes)
    × (get_http_result_text 200 ≡ some text)
    × (k ≤ 6)
    × (service_turns site_wire arena any_site no_mess 0 k
          (alone site_wire 1 asking (codes "hello", []))
        ≡ some (alone site_wire 1 c₁ w₁))
    × (c₁.transfer_completed ≡ true)
    × (sent w₁
        ≡ ([] ++ (status_line reply text ++ (header_block reply.outbound_headers ++ codes "\r\n")))
          ++ codes "hello")
    × (service_turns site_wire arena any_site no_mess 0
          (k + 1)
          (alone site_wire 1 asking (codes "hello", []))
        ≡ some (alone site_wire 1 c₂ w₂))
    × IsFinished site_wire (flags_of asking (headers_after asking fields)).close c₂
service_turns-delivers_example =
    service_turns-delivers site_wire arena arena-IsAmple (λ at. omega arith) to_read sent (λ w. [])
      site_wire-IsDelivery (record { open_quiet = λ path w. refl; size_quiet = λ fd w. refl })
      site_wire-IsPolled any_site no_mess 0 1 6 asking (codes "GET") (codes "/a.txt") fields
      get_method site (codes "/srv") (codes "/srv/a.txt") (codes "text/plain") 4 (codes "hello", [])
      refl refl refl asking-IsForFile refl (omega arith)

parse_request-understood_example :
    parse_request site_wire arena 0 any_site [] asking (codes "hello", [])
    ≡ some (
        understood site_wire asking get_method
          (headers_after asking fields)
          0
          (codes "/a.txt")
          site
          (codes "/srv")
          (codes "/srv/a.txt")
          (codes "hello", []))
parse_request-understood_example =
    parse_request-understood site_wire arena arena-IsAmple 0 any_site [] (codes "GET")
      (codes "/a.txt") fields asking get_method site (codes "/srv") (codes "/srv/a.txt")
      (codes "hello", []) asking-IsRequest asking-IsLocated
