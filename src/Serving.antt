-- ===== src/Serving.antt =====
-- main.c: `service_clients`, one turn of a thread over the list of clients. `none` is an access
-- outside a block or an array, or through NULL. The array for `poll` is taken to be had; it is
-- never freed.
pub mod First
pub mod Codes
pub mod Answers
pub mod Requests
pub mod Turns
pub mod Reach
pub mod Asked
pub mod Delivery
pub mod Loop
pub mod Sending
pub mod EndToEnd
pub mod Arrival
pub mod Connection
use sillyweb.Base.{
  ℕ, Bool, true, false, ◌&&◌, ◌||◌, ◌==◌, List, [], ◌∷◌, Option, none, some, if◌then◌else◌, Bytes,
  is_positive,
}
use sillyweb.Memory.{Allocator}
use sillyweb.Platform.{Platform, Revents}
use sillyweb.Client.{Client, clear_client, close_connect}
use sillyweb.Clients.{Node, State}
use sillyweb.Transport.{transport_close}
use sillyweb.Transfer.{transfer_send, transfer_recv, transfer_close}
use sillyweb.Request.{is_client_request_complete}
use sillyweb.Request.Parse.{AnyVhost, parse_request}
use sillyweb.Dispatch.{dispatch_request}

-- What memory holds that the handlers read though nothing has written it: behind the block of the
-- input buffer, in the local variables of `percent_decode` and `dispatch_request`, and in the block
-- for `argp`.
pub record Leftovers : Type 0 where
  pub behind : Client → Bytes
  pub last : Client → ℕ
  pub index : Client → ℕ
  pub argp : Client → List (Option Bytes)

module _ (os : Platform) where
  open os use {World}

  -- A transfer that is done: the file is closed, then the connection, or the next request is
  -- awaited.
  unfoldable pub finish_transfer : Client → World → Client × World
  finish_transfer c w =
      let (c', w') = transfer_close os c.transfer c w in
      if c'.flags.http_1_0 || c'.flags.close
      then (
        record c' { active = false },
        transport_close os c'.server.transport (record c' { active = false }) w',
      )
      else if c'.flags.http_1_1
      then clear_client os c' w'
      else (c', w')

module _ (os : Platform) (mem : Allocator) (get_vhost : AnyVhost) (mess : Leftovers) where
  open os use {World}

  -- A request that is there is parsed and dispatched.
  unfoldable pub answer_request : Client → World → Option (Client × World)
  unfolding is_client_request_complete
  answer_request c w = elim (is_client_request_complete c.inputbuffer (mess.behind c)) [
    | none ↦ none
    | some false ↦ some (c, w)
    | some true ↦ elim (parse_request os mem (mess.last c) get_vhost (mess.behind c) c w) [
      | none ↦ none
      | some c' ↦ dispatch_request os mem (mess.argp c) (mess.index c) c' w
    ]
  ]

  -- The round of the first loop for a client; the flag says whether it is put into the array.
  unfoldable pub visit : ℕ → Client → World → Option (Client × World × Bool)
  unfolding finish_transfer answer_request
  visit poolid c w =
      if c.active
      then (if c.transfer_in_progress && c.transfer_completed
          then (let (c', w') = finish_transfer os c w in some (c', w', false))
          else if poolid == c.thread_pool_id
          then elim (answer_request c w) [ none ↦ none | some (c', w') ↦ some (c', w', true) ]
          else some (c, w, false))
      else some (c, w, false)

  -- The first loop: the list after it, and the descriptors for `poll`.
  unfoldable pub visit_all : ℕ → List Node → World → Option (List Node × List ℕ × World)
  unfolding visit
  visit_all poolid [] w = some ([], [], w)
  visit_all poolid (n ∷ ns) w = elim (visit poolid n.client w) [
    | none ↦ none
    | some (c, w', polled) ↦ elim (visit_all poolid ns w') [
      | none ↦ none
      | some (ns', fds, w'') ↦
          some (record n { client = c } ∷ ns', if polled then n.client.sock ∷ fds else fds, w'')
    ]
  ]

module _ (os : Platform) (mem : Allocator) where
  open os use {World}

  -- What is done for a client on what `poll` reports.
  unfoldable pub serve_client : Revents → Client → World → Option (Client × World)
  unfolding close_connect transfer_recv transfer_send
  serve_client r c w =
      if r.failed
      then some (close_connect os c, w)
      else if r.readable
      then transfer_recv os mem c.transfer c w
      else if r.writable
      then transfer_send os mem c.transfer c w
      else some (c, w)

  -- The inner loop: the first client of the list that has the descriptor, whatever its thread, and
  -- though it may be dead.
  unfoldable pub serve_sock : ℕ → Revents → List Node → World → Option (List Node × World)
  unfolding serve_client
  serve_sock fd r [] w = some ([], w)
  serve_sock fd r (n ∷ ns) w = elim (n.client.sock == fd) [
    | true ↦ elim (serve_client r n.client w) [
      | none ↦ none
      | some (c, w') ↦ some (record n { client = c } ∷ ns, w')
    ]
    | false ↦ elim (serve_sock fd r ns w) [ none ↦ none | some (ns', w') ↦ some (n ∷ ns', w') ]
  ]

  -- What follows `poll`. The inner loop begins with `clientcount=0`, so the outer loop over the
  -- array ends after its first round.
  unfoldable pub serve_polled : List ℕ → List Node → World → Option (List Node × World)
  unfolding serve_sock
  serve_polled [] ns w = some (ns, w)
  serve_polled (fd ∷ fds) ns w =
      let ((count, first), w') = os.poll (fd ∷ fds) w in
      if is_positive count then serve_sock fd first ns w' else some (ns, w')

module _ (os : Platform) (mem : Allocator) (get_vhost : AnyVhost) (mess : Leftovers) where
  -- On an empty list `clientcount` is not initialised, and there is a `poll` of no array, which
  -- fails, or a `sleep`.
  unfoldable pub service_clients : ℕ → State os → Option (State os)
  unfolding visit_all serve_polled
  service_clients poolid s = elim (visit_all os mem get_vhost mess poolid s.clienthead s.world) [
    | none ↦ none
    | some (ns, fds, w) ↦ elim (serve_polled os mem fds ns w) [
      | none ↦ none
      | some (ns', w') ↦ some (record { clienthead = ns'; world = w' })
    ]
  ]
