-- ===== src/Listening/Bindings.antt =====
-- What `do_server_port_bindings` leaves of the servers.
use sillyweb.Base.{ℕ, ◌%◌, ◌^◌, ◌≡◌, refl, ◌∙◌, List, [], ◌∷◌, All, some, Bytes, ℤ, pos}
use sillyweb.Service.{Server}
use sillyweb.Listening.{
  Family, inet, Network, start_listening, bind_to_address, parse_address, bind_server,
  do_server_port_bindings,
}

-- The server has a descriptor and the port of its configuration, cut to 16 bits.
abbrev pub IsBoundFrom : Server → Server → Type 0
IsBoundFrom s s' = (fd : ℕ) × (s' ≡ record s { server_sock = pos fd; sin_port = s.port % 2 ^ 16 })

abbrev pub AllBoundFrom : List Server → List Server → Type 0
AllBoundFrom [] [] = Unit
AllBoundFrom (s ∷ ss) (t ∷ ts) = IsBoundFrom s t × AllBoundFrom ss ts
AllBoundFrom _ _ = ⊥

-- A network that refuses nothing.
pub record IsWilling {W : Type 0} (net : Network W) : Type 0 where
  pub mutex_had : (w : W) → (net.mutex_init w).0 ≡ pos 0
  pub socket_had : (w : W) → (fd : ℕ) × ((net.socket w).0 ≡ pos fd)
  pub reuse_had : (fd : ℤ) (w : W) → (net.reuse_address fd w).0 ≡ pos 0
  pub bind_had : (fd : ℤ) (at : Family × ℕ × ℕ) (w : W) → (net.bind fd at w).0 ≡ pos 0
  pub listen_had : (fd : ℤ) (w : W) → (net.listen fd w).0 ≡ pos 0

-- No call for a socket changes `f` of the world.
pub record IsApart {W A : Type 0} (net : Network W) (f : W → A) : Type 0 where
  pub mutex_apart : (w : W) → f (net.mutex_init w).1 ≡ f w
  pub socket_apart : (w : W) → f (net.socket w).1 ≡ f w
  pub reuse_apart : (fd : ℤ) (w : W) → f (net.reuse_address fd w).1 ≡ f w
  pub bind_apart : (fd : ℤ) (at : Family × ℕ × ℕ) (w : W) → f (net.bind fd at w).1 ≡ f w
  pub listen_apart : (fd : ℤ) (w : W) → f (net.listen fd w).1 ≡ f w

module _ {W : Type 0} (net : Network W) where
  -- An address to bind to, which is one of IPv4.
  abbrev pub HasAddress : Server → Type 0
  HasAddress s =
      (text : Bytes) × (s.bind_address ≡ some text) × ((net.inet_pton inet text).0 ≡ pos 1)

  module _ (willing : IsWilling net) {A : Type 0} (f : W → A) (apart : IsApart net f) where
    bind_server-bound :
        (s : Server) (w : W)
        → HasAddress s
        → (fd : ℕ) × (w' : W) × (bind_server net s w
            ≡ some (pos fd, record s { server_sock = pos fd; sin_port = s.port % 2 ^ 16 }, w'))
          × (f w' ≡ f w)
    unfolding bind_server parse_address bind_to_address start_listening
    bind_server-bound s w (text, has, four) =
        let w1 = (net.mutex_init w).1 in
        let (fd, had) = willing.socket_had w1 in
        let w2 = (net.socket w1).1 in
        let w3 = (net.reuse_address (pos fd) w2).1 in
        let port = s.port % 2 ^ 16 in
        let named : Family × ℕ × ℕ = (inet, (net.inet_pton inet text).1, port) in
        let w4 = (net.bind (pos fd) named w3).1 in
        (
          fd,
          (net.listen (pos fd) w4).1,
          rw
              (
                willing.mutex_had w,
                has,
                four,
                bind_to_address,
                had,
                willing.reuse_had (pos fd) w2,
                willing.bind_had (pos fd) named w3,
                start_listening,
                willing.listen_had (pos fd) w4,
                ← has,
              )
              refl,
          apart.listen_apart (pos fd) w4
              ∙ apart.bind_apart (pos fd) named w3
              ∙ apart.reuse_apart (pos fd) w2
              ∙ apart.socket_apart w1
              ∙ apart.mutex_apart w,
        )

    -- On a network that refuses nothing, and if each server has an IPv4 address to bind to,
    -- `do_server_port_bindings` returns 0, and leaves the servers in their order, each with a
    -- descriptor and with the port of its configuration modulo 2 ^ 16, and otherwise as it was.
    -- Whatever the calls for sockets leave alone is as before.
    pub do_server_port_bindings-bound :
        (servers : List Server) (w : W)
        → All HasAddress servers
        → (servers' : List Server) × (w' : W) × (do_server_port_bindings net servers w
            ≡ some (servers', w'))
          × AllBoundFrom servers servers'
          × (f w' ≡ f w)
    unfolding do_server_port_bindings
    do_server_port_bindings-bound [] w h = ([], w, refl, tt, refl)
    do_server_port_bindings-bound (s ∷ ss) w (h, hs) =
        let (fd, w1, bound, same) = bind_server-bound s w h in
        let (ss', w2, rest, all, same') = do_server_port_bindings-bound ss w1 hs in
        (
          record s { server_sock = pos fd; sin_port = s.port % 2 ^ 16 } ∷ ss',
          w2,
          rw (do_server_port_bindings, bound, rest) refl,
          ((fd, refl), all),
          same' ∙ same,
        )
