-- ===== src/Tests/Connections.antt =====
-- A connection that sends a request for a file, from its first byte to its end.
use mathlib.Core.Path.{subst}
use sillyweb.Base.{
  ℕ, suc, ◌+◌, ◌≤◌, ◌≡◌, refl, sym, ap, ◌∙◌, true, false, [], ◌∷◌, ◌++◌, some, none, length, take,
  take_all, length-take, drop, Option, inr, same, Bytes, codes, pos, arith, strstr,
}
use sillyweb.Buffer.{Buffer}
use sillyweb.Buffer.Content.{content, IsValid}
use sillyweb.Client.{Client}
use sillyweb.Http.{get_http_result_text}
use sillyweb.Memory.{block}
use sillyweb.Platform.{Platform}
use sillyweb.Headers.{get_header_value}
use sillyweb.Request.{is_some, uri_of}
use sillyweb.Request.Fields.{lines, header_of, headers_of}
use sillyweb.Request.Line.{split_at}
use sillyweb.Request.Understood.{flags_of}
use sillyweb.Response.Stream.{status_line, header_block}
use sillyweb.Serving.Arrival.{IsArrival, IsFresh, after_recv}
use sillyweb.Serving.Connection.{service_turns-serves}
use sillyweb.Serving.Asked.{IsForFile, headers_after, answered}
use sillyweb.Serving.EndToEnd.{IsFinished}
use sillyweb.Serving.Loop.{IsPolled, alone, service_turns}
use sillyweb.Transfer.Delivery.{IsDelivery}
use sillyweb.Tests.Deliveries.{
  asking, fields, any_site, no_mess, asking-IsRequest, asking-IsComplete, text_type,
}
use sillyweb.Tests.Env.{arena, arena-IsAmple, no_buffer, filled, site}
use sillyweb.Transport.{transport_recv}
use sillyweb.Tests.Turns.{get_method}

-- What is pending, what is left of the file, and what was sent.
abbrev line : Platform
line = record {
  World = Bytes × Bytes × Bytes;
  send = λ sock text w. (pos (length text), (w.0, w.1, w.2 ++ text));
  recv = λ sock n w.
      (record { count = pos (length (take n w.0)); bytes = take n w.0 }, (drop n w.0, w.1, w.2));
  ssl_write = λ ctx text w. (pos (length text), (w.0, w.1, w.2 ++ text));
  ssl_read = λ ctx n w.
      (record { count = pos (length (take n w.0)); bytes = take n w.0 }, (drop n w.0, w.1, w.2));
  ssl_free = λ ctx w. w;
  open_file = λ path w. (pos 5, w);
  read = λ fd n w.
      (record { count = pos (length (take n w.1)); bytes = take n w.1 }, (w.0, drop n w.1, w.2));
  write_struct = λ fd n w. (pos n, w);
  file_size = λ fd w. (pos (length w.1), w);
  close = λ fd w. w;
  realpath = λ path w. some (codes "/srv/a.txt");
  is_file = λ path w. true;
  is_dir = λ path w. false;
  stat = λ path w. (pos 5, 1);
  list_dir = λ path w. some (codes "a.txt" ∷ []);
  ctime = λ at. codes "Thu Jan  1 00:00:00 1970\n";
  time = λ w. 0;
  basename = λ path. codes "a.txt";
  after_basename = λ path. path;
  poll = λ fds w. (
    (
      pos 1,
      record {
        failed = false;
        readable = elim w.0 [ [] ↦ false | c ∷ cs ↦ true ];
        writable = true;
      },
    ),
    w,
  );
}

abbrev pending : Bytes × Bytes × Bytes → Bytes
pending w = w.0

abbrev rest : Bytes × Bytes × Bytes → Bytes
rest w = w.1

abbrev sent : Bytes × Bytes × Bytes → Bytes
sent w = w.2

line-IsDelivery : IsDelivery line rest sent
line-IsDelivery = record {
  read_count = λ fd n w. refl;
  read_bytes = λ fd n w. refl;
  read_rest = λ fd n w. refl;
  read_quiet = λ fd n w. refl;
  send_takes = λ sock text w. (refl, refl, refl);
  ssl_write_takes = λ ctx text w. (refl, refl, refl);
}

line-IsPolled : IsPolled line rest sent pending
line-IsPolled = record {
  poll_writable = λ fd w e. reported w e;
  poll_quiet = λ fd w. refl;
  poll_rest = λ fd w. refl;
  poll_pending = λ fd w. refl;
  read_pending = λ fd n w. refl;
  send_pending = λ sock text w. refl;
  ssl_write_pending = λ ctx text w. refl;
}
  where
    reported :
        (w : Bytes × Bytes × Bytes)
        → pending w ≡ []
        → (line.poll (4 ∷ []) w).0
          ≡ (pos 1, record { failed = false; readable = false; writable = true })
    reported ([], r, t) e = refl
    reported (c ∷ cs, r, t) e = absurd (cc e)

line-IsArrival : IsArrival line rest sent pending
line-IsArrival = record {
  poll_readable = λ fd w more. reported w more;
  recv_takes = λ sock n w. (refl, refl, refl, refl, refl);
  ssl_read_takes = λ ctx n w. (refl, refl, refl, refl, refl);
}
  where
    reported :
        (w : Bytes × Bytes × Bytes)
        → 1 ≤ length (pending w)
        → (line.poll (4 ∷ []) w).0
          ≡ (pos 1, record { failed = false; readable = true; writable = true })
    reported ([], r, t) more = absurd (omega arith)
    reported (c ∷ cs, r, t) more = refl

abbrev request : Bytes
request = codes "GET /a.txt HTTP/1.1\r\nHost: x\r\n\r\n"

-- A buffer with the request is this one.
only_buffer :
    (p : Option Bytes) (n : ℕ)
    → IsValid (record { buffer = p; len = n })
    → take n (block p) ≡ request
    → filled request ≡ record { buffer = p; len = n }
only_buffer none n v e =
    absurd (omega (arith, ap (λ (t : Bytes). length t) e, length-take {A = ℕ} n []))
only_buffer (some bytes) n v e =
    let whole : request ≡ bytes = sym e ∙ take_all n bytes (omega (arith, v.sized)) in
    let size : length request ≡ n = ap (λ (t : Bytes). length t) whole ∙ v.sized in
    rw (← size, ← whole) refl

abbrev connected : Client
connected = record asking { inputbuffer = no_buffer }

connected-IsFresh : IsFresh 0 connected
connected-IsFresh = record {
  alive = refl;
  own = refl;
  idle = refl;
  no_file = refl;
  is_plain = refl;
  valid = record { sized = refl; fits = omega arith };
  silent = refl;
}

abbrev received : Bytes × Bytes × Bytes
received = ([], codes "hello", [])

asking-IsForFile :
    IsForFile line any_site no_mess asking
      (codes "GET")
      (codes "/a.txt")
      fields
      get_method
      site
      (codes "/srv")
      (codes "/srv/a.txt")
      (codes "text/plain")
      4
      received
unfolding strstr is_some lines header_of headers_of get_header_value split_at same uri_of
asking-IsForFile = record {
  request = asking-IsRequest;
  complete = asking-IsComplete;
  located = record {
    chosen = inr (codes " x\r", refl, refl);
    has_root = refl;
    cgi = codes "/cgi";
    has_cgi = refl;
    resolved = refl;
    no_cgi = refl;
  };
  waiting = record {
    valid = record { sized = refl; fits = omega arith };
    empty = refl;
    not_cgi = refl;
    short_names = omega arith;
    short_line = omega arith;
  };
  file = record {
    below = refl;
    is_file = refl;
    is_plain = refl;
    opens = refl;
    named = refl;
    typed = text_type;
  };
}

abbrev at_first : Bytes × Bytes × Bytes
at_first = (request, codes "hello", [])

abbrev reply : Buffer → Client
reply b =
    answered line no_mess (record connected { inputbuffer = b }) get_method (codes "/a.txt") fields
      site (codes "/srv") (codes "/srv/a.txt") (codes "text/plain") 4 received

asks :
    (b : Buffer)
    → IsValid b
    → content b ≡ request
    → IsForFile line any_site no_mess
        (record connected { inputbuffer = b })
        (codes "GET")
        (codes "/a.txt")
        fields
        get_method
        site
        (codes "/srv")
        (codes "/srv/a.txt")
        (codes "text/plain")
        4
        (after_recv line connected at_first)
unfolding transport_recv
asks b valid e =
    subst
      (λ (k : Buffer).
        IsForFile line any_site no_mess (record connected { inputbuffer = k }) (codes "GET")
          (codes "/a.txt") fields get_method site (codes "/srv") (codes "/srv/a.txt")
          (codes "text/plain") 4 received)
      (only_buffer b.buffer b.len valid e) asking-IsForFile

service_turns-serves_example :
    (b : Buffer) × (text : Bytes) × (k : ℕ) × (c₁ : Client) × (w₁ : Bytes × Bytes × Bytes)
    × (c₂ : Client) × (w₂ : Bytes × Bytes × Bytes) × (content b ≡ request)
    × (get_http_result_text 200 ≡ some text)
    × (k ≤ 6)
    × (service_turns line arena any_site no_mess 0 (suc k) (alone line 1 connected at_first)
        ≡ some (alone line 1 c₁ w₁))
    × (c₁.transfer_completed ≡ true)
    × (sent w₁
        ≡ ([]
            ++ (status_line (reply b) text
                ++ (header_block (reply b).outbound_headers ++ codes "\r\n")))
          ++ codes "hello")
    × (service_turns line arena any_site no_mess 0 (suc (k + 1)) (alone line 1 connected at_first)
        ≡ some (alone line 1 c₂ w₂))
    × IsFinished line (flags_of connected (headers_after connected fields)).close c₂
unfolding transport_recv
service_turns-serves_example =
    service_turns-serves line arena arena-IsAmple (λ at. omega arith) rest sent pending
      line-IsDelivery (record { open_quiet = λ path w. refl; size_quiet = λ fd w. refl })
      (record { open_quiet = λ path w. refl; size_quiet = λ fd w. refl }) line-IsPolled
      line-IsArrival any_site no_mess 0 1 6 connected (codes "GET") (codes "/a.txt") fields
      get_method site (codes "/srv") (codes "/srv/a.txt") (codes "text/plain") 4 at_first
      connected-IsFresh (omega arith) (omega arith) asks (omega arith)
