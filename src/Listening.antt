-- ===== src/Listening.antt =====
-- server.c and vhost.c (the lists of servers and virtual hosts), main.c (`bind_server`,
-- `do_server_port_bindings`, `server_listening_thread`) and client.c (`create_new_client`). `none`
-- is an access outside a block, or through NULL. Mutexes are left out: each function runs by
-- itself.
pub mod Bindings
pub mod Arrivals
use sillyweb.Base.{
  ℕ, ◌%◌, ◌^◌, suc, Bool, true, false, List, [], ◌∷◌, ◌++◌, map, Option, none, some, if◌then◌else◌,
  Bytes, ℤ, pos, negsuc, is_negative, is_nonzero, ◌==◌,
}
use sillyweb.Memory.{Allocator}
use sillyweb.Buffer.{Buffer, new_buffer}
use sillyweb.Platform.{Platform}
use sillyweb.Service.{Vhost, Server, plain}
use sillyweb.Client.{Client, no_flags}
use sillyweb.Clients.{Node, State, add_new_client_struct, cleanup_dead_clients}

-- The address families of `sin_family`; `unspecified` is what `bzero` leaves.
pub data Family : Type 0 where
  unspecified inet inet6 : Family

-- What `accept` gives: the descriptor, the address as `inet_ntop` prints it, and the port.
pub record Accepted : Type 0 where
  pub clientfd : ℕ
  pub ip_addr_buffer : Bytes
  pub port : ℕ

-- The calls of the C library for sockets that listen, over the state outside the process.
pub record Network (W : Type 0) : Type 0 where
  pub mutex_init : W → ℤ × W
  pub socket : W → ℤ × W
  pub reuse_address : ℤ → W → ℤ × W
  -- the result, and the address that is stored
  pub inet_pton : Family → Bytes → ℤ × ℕ
  pub bind : ℤ → Family × ℕ × ℕ → W → ℤ × W
  pub listen : ℤ → W → ℤ × W
  -- the result, and of each descriptor whether exactly POLLIN is reported
  pub poll : List ℤ → W → (ℤ × List Bool) × W
  -- `none` is -1
  pub accept : ℤ → W → Option Accepted × W
  pub rand : W → ℕ × W

-- `add_new_server_struct`: behind the last one.
unfoldable pub add_new_server_struct : List Server → Server → List Server
add_new_server_struct serverhead newserver = serverhead ++ newserver ∷ []

unfoldable pub get_server_count : List Server → ℕ
get_server_count [] = 0
get_server_count (s ∷ ss) = suc (get_server_count ss)

abbrev pub same_fd : ℤ → ℤ → Bool
same_fd (pos m) (pos n) = m == n
same_fd (negsuc m) (negsuc n) = m == n
same_fd _ _ = false

unfoldable pub get_server_by_fd : List Server → ℤ → Option Server
get_server_by_fd [] fd = none
get_server_by_fd (s ∷ ss) fd = if same_fd s.server_sock fd then some s else get_server_by_fd ss fd

unfoldable pub add_new_vhost_struct : List Vhost → Vhost → List Vhost
add_new_vhost_struct vhost_head newvhost = vhost_head ++ newvhost ∷ []

unfoldable pub get_default_vhost : List Vhost → Option Vhost
get_default_vhost [] = none
get_default_vhost (v ∷ vs) = some v

module _ {W : Type 0} (net : Network W) where
  -- `bind_server` from `listen` on
  unfoldable pub start_listening : Server → W → ℤ × Server × W
  start_listening ctx w =
      let (r, w') = net.listen ctx.server_sock w in
      (if is_nonzero r then negsuc 3 else ctx.server_sock, ctx, w')

  -- `bind_server` from the assignment of the port on
  unfoldable pub bind_to_address : Family → ℕ → Server → W → ℤ × Server × W
  unfolding start_listening
  bind_to_address family address ctx w =
      let ctx' : Server = record ctx { sin_port = ctx.port % 2 ^ 16 } in
      let (r, w') = net.bind ctx'.server_sock (family, address, ctx'.sin_port) w in
      if is_nonzero r then (negsuc 2, ctx', w') else start_listening ctx' w'

  -- `bind_server` from `bzero` on; an address of neither family is bound as it is.
  unfoldable pub parse_address : Server → W → Option (ℤ × Server × W)
  unfolding bind_to_address
  parse_address ctx w = elim ctx.bind_address [
    | none ↦ none
    | some text ↦
        let ctx' : Server = record ctx { sin_port = 0 } in
        let (four, address) = net.inet_pton inet text in
        if is_nonzero four
        then some (bind_to_address inet address ctx' w)
        else if is_nonzero (net.inet_pton inet6 text).0
        then some (negsuc 4, ctx', w)
        else some (bind_to_address unspecified 0 ctx' w)
  ]

  -- `bind_server`: the result, the server, and the world.
  unfoldable pub bind_server : Server → W → Option (ℤ × Server × W)
  unfolding parse_address
  bind_server ctx w =
      let (mutex, w1) = net.mutex_init w in
      if is_nonzero mutex
      then some (negsuc 0, ctx, w1)
      else (let (fd, w2) = net.socket w1 in
          let ctx' : Server = record ctx { server_sock = fd } in
          let (reuse, w3) = net.reuse_address fd w2 in
          if is_negative fd
          then some (negsuc 1, ctx', w2)
          else if is_negative reuse
          then some (negsuc 4, ctx', w3)
          else parse_address ctx' w3)

  -- `do_server_port_bindings`, when it returns 0. On a failure it passes the server to `llog` as a
  -- client, and `vhost` of a client stands behind the end of a `server_t`.
  unfoldable pub do_server_port_bindings : List Server → W → Option (List Server × W)
  unfolding bind_server
  do_server_port_bindings [] w = some ([], w)
  do_server_port_bindings (ptr ∷ rest) w = elim (bind_server ptr w) [
    | none ↦ none
    | some (r, ptr', w') ↦ elim (is_negative r) [
      | true ↦ none
      | false ↦ elim (do_server_port_bindings rest w') [
        | none ↦ none
        | some (rest', w'') ↦ some (ptr' ∷ rest', w'')
      ]
    ]
  ]

abbrev pub num_cpus : ℕ
num_cpus = 1

-- The structure that `create_new_client` fills; what it leaves is 0, from `calloc`.
abbrev pub new_client : Accepted → Server → Option Vhost → ℕ → ℕ → Buffer → Buffer → Client
new_client a server vhost pool now input output = record {
  active = true;
  thread_pool_id = pool;
  sock = a.clientfd;
  flags = no_flags;
  inputbuffer = input;
  outputbuffer = output;
  inbound_headers = [];
  outbound_headers = [];
  uri = none;
  query = none;
  localpath = none;
  cleanlocalpath = none;
  filename = none;
  pump_fd = pos 0;
  request_complete = false;
  is_cgi_request = false;
  response_complete = false;
  request_parsed = false;
  transfer_in_progress = false;
  transfer_completed = false;
  result_code = 0;
  vhost = vhost;
  method = none;
  server = server;
  transfer = plain;
  sslctx = 0;
  client_connected = now;
  ipaddrstr = some a.ip_addr_buffer;
  srcport = a.port;
}

module _ (os : Platform) (net : Network os.World) (mem : Allocator) (vhosts : List Vhost) where
  open os use {World}

  -- `create_new_client`, where `block` is the address that `calloc` gives, or NULL. `none` is also
  -- the case that there is no memory for a buffer: the next turn reads the length of that buffer
  -- through NULL. The list of clients that is returned has the new one.
  unfoldable pub create_new_client : Option ℕ → Accepted → Server → State os → Option (State os)
  unfolding new_buffer add_new_client_struct get_default_vhost
  create_new_client none a server s = some s
  create_new_client (some address) a server s =
      let (r, w) = net.rand s.world in
      elim (new_buffer mem) [
        | none ↦ none
        | some b ↦
            let client =
              new_client a server (get_default_vhost vhosts) (r % num_cpus) (os.time w) b b in
            some (record {
              clienthead =
                  add_new_client_struct s.clienthead
                    (record { address = address; client = client });
              world = w;
            })
      ]

  -- The loop over the descriptors after `poll`. It ends with the first client that is accepted.
  unfoldable pub accept_first :
      List Server → Option ℕ → List ℤ → List Bool → State os → Option (State os)
  unfolding create_new_client get_server_by_fd
  accept_first servers block [] rs s = some s
  accept_first servers block fds [] s = some s
  accept_first servers block (fd ∷ fds) (false ∷ rs) s = accept_first servers block fds rs s
  accept_first servers block (fd ∷ fds) (true ∷ rs) s = elim (get_server_by_fd servers fd) [
    | none ↦ accept_first servers block fds rs s
    | some ptr ↦ elim (net.accept ptr.server_sock s.world).0 [
      | none ↦
          accept_first servers block fds rs
            (record s { world = (net.accept ptr.server_sock s.world).1 })
      | some a ↦
          create_new_client block a ptr
            (record s { world = (net.accept ptr.server_sock s.world).1 })
    ]
  ]

  -- One round of `server_listening_thread`. If `poll` reports nothing, dead clients are removed.
  unfoldable pub server_listening_round : List Server → Option ℕ → State os → Option (State os)
  unfolding accept_first
  server_listening_round servers block s =
      let fds = map (λ (ptr : Server). ptr.server_sock) servers in
      let ((pv, revents), w) = net.poll fds s.world in
      if is_nonzero pv
      then accept_first servers block fds revents (record s { world = w })
      else some (cleanup_dead_clients os (record s { world = w }))
