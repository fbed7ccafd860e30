-- ===== src/Tests/Services.antt =====
-- Turns of the service and listings, on a wire.
use sillyweb.Base.{
  ◌≡◌, ◌⊎◌, pos, refl, true, false, List, [], ◌∷◌, ◌++◌, some, none, Bytes, codes, arith, strstr,
  decimal,
}
use sillyweb.Buffer.Content.{content, IsValid}
use sillyweb.Buffer.{new_buffer}
use sillyweb.Client.{Client}
use sillyweb.Clients.{Node, State, cleanup_dead_clients, add_new_client_struct}
use sillyweb.Listing.{generate_dir_listing, row, residual_path}
use sillyweb.Listing.Page.{page, concat, listing_headers, generate_dir_listing-page}
use sillyweb.Listening.{
  Network, server_listening_round, create_new_client, get_server_by_fd, accept_first,
}
use sillyweb.Listening.Arrivals.{Joined, server_listening_round-Joined}
use sillyweb.Platform.{Platform}
use sillyweb.Request.Parse.{AnyVhost}
use sillyweb.Service.{Server}
use sillyweb.Serving.{
  Leftovers, visit_all, visit, service_clients, answer_request, serve_polled, serve_sock,
  serve_client,
}
use sillyweb.Transfer.{int_text, transfer_send, plain_transfer_send, pump_in, pump_out}
use sillyweb.Util.{sctime}
use sillyweb.Request.{is_client_request_complete}
use sillyweb.Serving.First.{Untouched, service_clients-first}
use sillyweb.Serving.Reach.{IsSoundList, here, next, turn, round, service-IsSoundList}
use sillyweb.Tests.Env.{arena, arena-IsAmple, wire, site, guest, no_buffer}

abbrev pub loop_back : Platform
loop_back = wire (λ text. text)

-- A client in a directory of one file.
abbrev visitor : Client
visitor = guest []

abbrev empty_visitor : Client
empty_visitor = record visitor { inputbuffer = no_buffer }

abbrev at_docs : Bytes
at_docs = codes "/srv/docs"

residual_docs : residual_path at_docs (codes "/srv") ≡ codes "/docs"
unfolding residual_path strstr
residual_docs = refl

generate_dir_listing-page_example :
    (c' : Client) × (generate_dir_listing loop_back arena empty_visitor at_docs ([], []) ≡ some c')
    × IsValid c'.outputbuffer
    × (content c'.outputbuffer
        ≡ []
          ++ concat (
              page loop_back empty_visitor site at_docs
                (residual_path at_docs (codes "/srv"))
                ([], [])))
    × (c'.outbound_headers ≡ [] ++ listing_headers c'.outputbuffer.len)
unfolding residual_path strstr row sctime int_text decimal
generate_dir_listing-page_example =
    generate_dir_listing-page loop_back arena arena-IsAmple empty_visitor site at_docs
      (codes "/srv") ([], []) refl refl (record { sized = refl; fits = omega arith }) (omega arith)
      (omega arith) (omega arith, tt) (omega arith)

abbrev alone : Node
alone = record { address = 9; client = empty_visitor }

abbrev other : Node
other = record { address = 12; client = record empty_visitor { sock = 5 } }

abbrev at_rest : State loop_back
at_rest = record { clienthead = alone ∷ other ∷ []; world = ([], []) }

abbrev no_mess : Leftovers
no_mess = record { behind = λ c. []; last = λ c. 0; index = λ c. 0; argp = λ c. [] }

abbrev nowhere : AnyVhost
nowhere name = none

turn_visited :
    visit_all loop_back arena nowhere no_mess 0 (alone ∷ other ∷ []) ([], [])
    ≡ some (alone ∷ other ∷ [], 4 ∷ 5 ∷ [], ([], []))
unfolding visit_all visit answer_request is_client_request_complete
turn_visited = refl

turn_served :
    (s' : State loop_back) × (service_clients loop_back arena nowhere no_mess 0 at_rest ≡ some s')
unfolding service_clients visit_all visit answer_request is_client_request_complete serve_polled
    serve_sock serve_client transfer_send plain_transfer_send pump_in pump_out
turn_served = (_, refl)

service_clients-first_example : Untouched 4 (alone ∷ other ∷ []) (turn_served.0).clienthead
service_clients-first_example =
    service_clients-first loop_back arena nowhere no_mess 0 4 (5 ∷ []) (alone ∷ other ∷ []) at_rest
      turn_served.0 ([], []) turn_visited turn_served.1

-- A network that gives every call what it asks for, and one connection in each round.
abbrev open_network : Network loop_back.World
open_network = record {
  mutex_init = λ w. (pos 0, w);
  socket = λ w. (pos 3, w);
  reuse_address = λ fd w. (pos 0, w);
  inet_pton = λ family text. (pos 1, 0);
  bind = λ fd name w. (pos 0, w);
  listen = λ fd w. (pos 0, w);
  poll = λ fds w. ((pos 1, true ∷ []), w);
  accept =
      λ fd w. (some (record { clientfd = 4; ip_addr_buffer = codes "10.0.0.1"; port = 4000 }), w);
  rand = λ w. (7, w);
}

abbrev one_server : List Server
one_server = visitor.server ∷ []

abbrev idle : State loop_back
idle = record { clienthead = []; world = ([], []) }

joined :
    (s' : State loop_back) × (server_listening_round loop_back open_network arena
        (site ∷ [])
        one_server
        (some 9)
        idle
      ≡ some s')
unfolding server_listening_round accept_first create_new_client get_server_by_fd new_buffer
    add_new_client_struct
joined = (_, refl)

server_listening_round-Joined_example :
    ((true ≡ false) × (joined.0 ≡ cleanup_dead_clients loop_back idle))
    ⊎ ((true ≡ true) × Joined (site ∷ []) one_server (some 9) [] (joined.0).clienthead)
server_listening_round-Joined_example =
    server_listening_round-Joined loop_back open_network arena (site ∷ []) one_server (some 9) idle
      joined.0 joined.1

served_after :
    (s' : State loop_back) × (service_clients loop_back arena nowhere no_mess 0 joined.0 ≡ some s')
unfolding joined service_clients visit_all visit answer_request is_client_request_complete
    serve_polled serve_sock serve_client transfer_send plain_transfer_send pump_in pump_out
    create_new_client new_buffer get_server_by_fd add_new_client_struct
served_after = (_, refl)

-- A client comes, and is served.
service-IsSoundList_example : IsSoundList (served_after.0).clienthead
service-IsSoundList_example =
    service-IsSoundList loop_back open_network nowhere (site ∷ []) one_server idle served_after.0
      refl
      (next (next here (round arena (some 9) tt joined.1)) (turn arena no_mess 0 served_after.1))
