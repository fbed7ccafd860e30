-- ===== src/Listening/Arrivals.antt =====
-- What a round of `server_listening_thread` makes of the list of clients.
use mathlib.Core.Path.{subst}
use sillyweb.Base.{
  ℕ, ◌≡◌, ◌⊎◌, refl, inl, inr, Bool, true, false, List, [], ◌∷◌, ◌++◌, map, Option, none, some, ℤ,
  is_nonzero, Bool-cases, Option-cases,
}
use sillyweb.Memory.{Allocator}
use sillyweb.Buffer.{new_buffer}
use sillyweb.Platform.{Platform}
use sillyweb.Service.{Vhost, Server}
use sillyweb.Clients.{Node, State, add_new_client_struct, cleanup_dead_clients}
use sillyweb.Listening.{
  Network, Accepted, get_server_by_fd, get_default_vhost, create_new_client, accept_first,
  server_listening_round,
}

-- A client that has just come, for the default virtual host.
pub record IsNew (vhosts : List Vhost) (servers : List Server) (block : Option ℕ) (n : Node)
    : Type 0 where
  pub has_block : block ≡ some n.address
  pub is_active : n.client.active ≡ true
  pub has_vhost : n.client.vhost ≡ get_default_vhost vhosts
  pub has_server : (fd : ℤ) × (get_server_by_fd servers fd ≡ some n.client.server)
  pub no_code : n.client.result_code ≡ 0
  pub no_request : n.client.inputbuffer.len ≡ 0

-- The list as it was, or with one new client behind it.
abbrev pub Joined : List Vhost → List Server → Option ℕ → List Node → List Node → Type 0
Joined vhosts servers block old new =
    (new ≡ old) ⊎ ((n : Node) × (new ≡ old ++ n ∷ []) × IsNew vhosts servers block n)

module _ (os : Platform) (net : Network os.World) (mem : Allocator) (vhosts : List Vhost) where
  open os use {World}

  -- What a loop leaves, if it ends.
  abbrev JoinedIn : List Server → Option ℕ → List Node → Option (State os) → Type 0
  JoinedIn servers block old none = Unit
  JoinedIn servers block old (some s) = Joined vhosts servers block old s.clienthead

  create_new_client-Joined :
      (servers : List Server) (fd : ℤ) (block : Option ℕ) (a : Accepted) (server : Server)
      (s : State os)
      → get_server_by_fd servers fd ≡ some server
      → JoinedIn servers block s.clienthead (create_new_client os net mem vhosts block a server s)
  unfolding create_new_client add_new_client_struct new_buffer
  create_new_client-Joined servers fd none a server s listens = inl refl
  create_new_client-Joined servers fd (some address) a server s listens =
      elim (Bool-cases (mem.calloc 16)) [
        | inl had ↦
            rw (create_new_client, new_buffer, had)
              (inr (
                _,
                refl,
                record {
                  has_block = refl;
                  is_active = refl;
                  has_vhost = refl;
                  has_server = (fd, listens);
                  no_code = refl;
                  no_request = refl;
                },
              ))
        | inr full ↦ rw (create_new_client, new_buffer, full) tt
      ]

  accept_first-Joined :
      (servers : List Server) (block : Option ℕ) (fds : List ℤ) (rs : List Bool) (s : State os)
      → JoinedIn servers block s.clienthead (accept_first os net mem vhosts servers block fds rs s)
  unfolding accept_first
  accept_first-Joined servers block [] rs s = inl refl
  accept_first-Joined servers block (fd ∷ fds) [] s = inl refl
  accept_first-Joined servers block (fd ∷ fds) (false ∷ rs) s =
      accept_first-Joined servers block fds rs s
  accept_first-Joined servers block (fd ∷ fds) (true ∷ rs) s =
      elim (Option-cases (get_server_by_fd servers fd)) [
        | inl e ↦ rw (accept_first, e) (accept_first-Joined servers block fds rs s)
        | inr (ptr, e) ↦ elim (Option-cases (net.accept ptr.server_sock s.world).0) [
          | inl e' ↦
              rw (accept_first, e, e')
                (accept_first-Joined servers block fds rs
                  (record s { world = (net.accept ptr.server_sock s.world).1 }))
          | inr (a, e') ↦
              rw (accept_first, e, e')
                (create_new_client-Joined servers fd block a ptr
                  (record s { world = (net.accept ptr.server_sock s.world).1 }) e)
        ]
      ]

  -- What `poll` reports of the servers, and the world behind it.
  abbrev pub polled : List Server → State os → (ℤ × List Bool) × World
  polled servers s = net.poll (map (λ (ptr : Server). ptr.server_sock) servers) s.world

  -- A round of `server_listening_thread` that ends: either `poll` has returned 0, and the round was
  -- `cleanup_dead_clients` from the world behind `poll` on; or `poll` has returned something else,
  -- and the list of clients is as it was, or has one more, behind the others, at the address that
  -- `calloc` gave. That client is active, belongs to the first virtual host and to a server of the
  -- list, and has no result code and no request yet.
  pub server_listening_round-Joined :
      (servers : List Server) (block : Option ℕ) (s s' : State os)
      → server_listening_round os net mem vhosts servers block s ≡ some s'
      → ((is_nonzero (polled servers s).0.0 ≡ false)
          × (s' ≡ cleanup_dead_clients os (record s { world = (polled servers s).1 })))
        ⊎ ((is_nonzero (polled servers s).0.0 ≡ true)
            × Joined vhosts servers block s.clienthead s'.clienthead)
  unfolding server_listening_round
  server_listening_round-Joined servers block s s' e =
      let fds = map (λ (ptr : Server). ptr.server_sock) servers in
      let w = (net.poll fds s.world).1 in
      elim (Bool-cases (is_nonzero (net.poll fds s.world).0.0)) [
        | inl ready ↦ inr (
          ready,
          subst (JoinedIn servers block s.clienthead) (rw (server_listening_round, ready) at e) (
              accept_first-Joined servers block fds (net.poll fds s.world).0.1
                (record s { world = w })),
        )
        | inr quiet ↦ inl (quiet, left (rw (server_listening_round, quiet) at e))
      ]
    where
      left : {t : State os} → some t ≡ some s' → s' ≡ t
      left h = cc h
