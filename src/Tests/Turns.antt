-- ===== src/Tests/Turns.antt =====
-- A file that is sent, and a request for a path where nothing is, on a wire.
use sillyweb.Base.{
  ◌≡◌, refl, inr, true, false, [], ◌++◌, some, Bytes, codes, pos, arith, strstr, same,
}
use sillyweb.Client.{Client}
use sillyweb.Dispatch.{dispatch_request}
use sillyweb.Dispatch.Accepted.{IsAccepted, connected}
use sillyweb.Dispatch.Files.{IsFileAt, opened, dispatch_request-file}
use sillyweb.Mime.{get_mime_from_filename, mime_from}
use sillyweb.Util.{get_file_ext}
use sillyweb.Mime.Table.{mime_list}
use sillyweb.Dispatch.Missing.{answered, dispatch_request-missing}
use sillyweb.Http.{get_http_result_text}
use sillyweb.Platform.{Platform}
use sillyweb.Request.{is_some}
use sillyweb.Request.Parse.{set_code}
use sillyweb.Response.Stream.{IsStream, status_line, header_block}
use sillyweb.Service.{HttpMethod, get_request_handler}
use sillyweb.Transfer.Delivery.{IsDelivery, IsPumping, send_turns, send_turns-delivers}
use sillyweb.Tests.Env.{arena, arena-IsAmple, wire, sent, guest, site, no_buffer}

abbrev pub whole_wire : Platform
whole_wire = wire (λ text. text)

abbrev pub to_read : Bytes × Bytes → Bytes
to_read w = w.0

pub wire-IsDelivery : IsDelivery whole_wire to_read sent
wire-IsDelivery = record {
  read_count = λ fd n w. refl;
  read_bytes = λ fd n w. refl;
  read_rest = λ fd n w. refl;
  read_quiet = λ fd n w. refl;
  send_takes = λ sock text w. (refl, refl, refl);
  ssl_write_takes = λ ctx text w. (refl, refl, refl);
}

abbrev pumping : Client
pumping = record (guest []) {
  outputbuffer = no_buffer;
  pump_fd = pos 5;
  transfer_in_progress = true;
}

pumping-IsPumping : IsPumping pumping
pumping-IsPumping = record {
  has_file = refl;
  in_progress = refl;
  unfinished = refl;
  valid = record { sized = refl; fits = omega arith };
  empty = refl;
}

send_turns-delivers_example :
    (c' : Client) × (w' : Bytes × Bytes) × (send_turns whole_wire arena 6 pumping
        (codes "hello", codes "> ")
      ≡ some (c', w'))
    × (c'.transfer_completed ≡ true)
    × (c'.outputbuffer.len ≡ 0)
    × (sent w' ≡ codes "> " ++ codes "hello")
send_turns-delivers_example =
    send_turns-delivers whole_wire arena arena-IsAmple to_read sent wire-IsDelivery 6 pumping
      (codes "hello", codes "> ") pumping-IsPumping (omega arith)

-- A disk with no files.
abbrev bare : Platform
bare = record whole_wire { is_file = λ path w. false }

bare-IsStream : IsStream bare sent
bare-IsStream = record { send_takes = λ sock text w. refl; ssl_write_takes = λ ctx text w. refl }

abbrev pub get_method : HttpMethod
get_method = record { method = codes "GET"; handler = get_request_handler }

abbrev asking : Client
asking = record (guest []) {
  method = some get_method;
  result_code = 200;
  uri = some (codes "/x");
  cleanlocalpath = some (codes "/srv/x");
}

asking-IsAccepted : IsAccepted asking get_method site (codes "/srv/x") (codes "/srv")
asking-IsAccepted = record {
  has_code = refl;
  has_method = refl;
  has_vhost = refl;
  has_path = refl;
  has_root = refl;
  not_cgi = refl;
  short_names = omega arith;
  short_line = omega arith;
}

dispatch_request-missing_example :
    (text : Bytes) × (w' : Bytes × Bytes) × (get_http_result_text 404 ≡ some text)
    × (dispatch_request bare arena [] 0 asking ([], []) ≡ some (answered 404 asking, w'))
    × (sent w'
        ≡ []
          ++ (status_line (set_code 404 asking) text
              ++ (header_block (answered 404 asking).outbound_headers ++ codes "\r\n")))
unfolding strstr is_some
dispatch_request-missing_example =
    dispatch_request-missing bare arena sent bare-IsStream arena-IsAmple (λ at. omega arith) [] 0
      asking ([], []) get_method site (codes "/srv/x") (codes "/srv") asking-IsAccepted
      (inr (refl, refl))

abbrev asking_page : Client
asking_page = record asking {
  cleanlocalpath = some (codes "/srv/a.txt");
  filename = some (codes "a.txt");
  inputbuffer = no_buffer;
}

page-IsAccepted : IsAccepted asking_page get_method site (codes "/srv/a.txt") (codes "/srv")
page-IsAccepted = record {
  has_code = refl;
  has_method = refl;
  has_vhost = refl;
  has_path = refl;
  has_root = refl;
  not_cgi = refl;
  short_names = omega arith;
  short_line = omega arith;
}

whole_wire-IsStream : IsStream whole_wire sent
whole_wire-IsStream = record {
  send_takes = λ sock text w. refl;
  ssl_write_takes = λ ctx text w. refl;
}

text_type : get_mime_from_filename (codes "a.txt") ≡ some (codes "text/plain")
unfolding get_mime_from_filename mime_from get_file_ext mime_list same
text_type = refl

page-IsFileAt :
    IsFileAt whole_wire asking_page
      (codes "/srv/a.txt")
      (codes "/srv")
      (codes "a.txt")
      (codes "text/plain")
      4
      (codes "hello", [])
unfolding strstr is_some
page-IsFileAt = record {
  below = refl;
  is_file = refl;
  is_plain = refl;
  opens = refl;
  named = refl;
  typed = text_type;
}

dispatch_request-file_example :
    (text : Bytes) × (c' : Client) × (w' : Bytes × Bytes) × (get_http_result_text 200 ≡ some text)
    × (dispatch_request whole_wire arena [] 0 asking_page (codes "hello", []) ≡ some (c', w'))
    × (c' ≡ connected (opened 4 (pos 5) (codes "text/plain") asking_page))
    × IsPumping c'
    × (sent w'
        ≡ []
          ++ (status_line asking_page text ++ (header_block c'.outbound_headers ++ codes "\r\n")))
dispatch_request-file_example =
    dispatch_request-file whole_wire arena sent whole_wire-IsStream arena-IsAmple
      (λ at. omega arith) (record { open_quiet = λ path w. refl; size_quiet = λ fd w. refl }) [] 0
      asking_page (codes "hello", []) get_method site (codes "/srv/a.txt") (codes "/srv")
      (codes "a.txt") (codes "text/plain") 4 page-IsAccepted page-IsFileAt
      (record { sized = refl; fits = omega arith }) refl
