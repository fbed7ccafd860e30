-- ===== src/Serving/First.antt =====
-- Which clients a turn of `service_clients` reads from or sends to.
use mathlib.Core.Path.{subst}
use sillyweb.Base.{
  ℕ, ◌≡◌, refl, ◌⊎◌, inl, inr, List, [], ◌∷◌, Option, none, some, ◌==◌, ==_iff, Bool-cases,
  is_positive, Option-cases,
}
use sillyweb.Memory.{Allocator}
use sillyweb.Platform.{Platform, Revents}
use sillyweb.Clients.{Node, State}
use sillyweb.Request.Parse.{AnyVhost}
use sillyweb.Serving.{Leftovers, visit_all, serve_client, serve_sock, serve_polled, service_clients}

-- Node by node: the same, or of a client that has the descriptor.
abbrev pub Untouched : ℕ → List Node → List Node → Type 0
Untouched fd [] [] = Unit
Untouched fd (n ∷ ns) (m ∷ ms) = ((m ≡ n) ⊎ (n.client.sock ≡ fd)) × Untouched fd ns ms
Untouched fd _ _ = ⊥

Untouched-refl : (fd : ℕ) (ns : List Node) → Untouched fd ns ns
Untouched-refl fd [] = tt
Untouched-refl fd (n ∷ ns) = (inl refl, Untouched-refl fd ns)

-- What a loop leaves, if it ends.
abbrev Leaves : (os : Platform) → ℕ → List Node → Option (List Node × os.World) → Type 0
Leaves os fd ns none = Unit
Leaves os fd ns (some r) = Untouched fd ns r.0

module _ (os : Platform) (mem : Allocator) where
  open os use {World}

  serve_sock-Leaves :
      (fd : ℕ) (r : Revents) (ns : List Node) (w : World)
      → Leaves os fd ns (serve_sock os mem fd r ns w)
  unfolding serve_sock
  serve_sock-Leaves fd r [] w = tt
  serve_sock-Leaves fd r (n ∷ ns) w = elim (Bool-cases (n.client.sock == fd)) [
    | inl same ↦ elim (Option-cases (serve_client os mem r n.client w)) [
      | inl e ↦ rw (serve_sock, same, e) tt
      | inr ((c, w'), e) ↦
          rw (serve_sock, same, e) (inr ((==_iff _ _).0 same), Untouched-refl fd ns)
    ]
    | inr other ↦
        rw (serve_sock, other) (behind (serve_sock os mem fd r ns w) (serve_sock-Leaves fd r ns w))
  ]
    where
      behind :
          (o : Option (List Node × World))
          → Leaves os fd ns o
          → Leaves os fd (n ∷ ns) (elim o [ none ↦ none | some (ns', w') ↦ some (n ∷ ns', w') ])
      behind none h = tt
      behind (some r) h = (inl refl, h)

  serve_polled-Leaves :
      (fd : ℕ) (fds : List ℕ) (ns : List Node) (w : World)
      → Leaves os fd ns (serve_polled os mem (fd ∷ fds) ns w)
  unfolding serve_polled
  serve_polled-Leaves fd fds ns w = elim (Bool-cases (is_positive (os.poll (fd ∷ fds) w).0.0)) [
    | inl ready ↦
        rw ready (serve_sock-Leaves fd (os.poll (fd ∷ fds) w).0.1 ns (os.poll (fd ∷ fds) w).1)
    | inr idle ↦ rw idle (Untouched-refl fd ns)
  ]

  -- A turn of `service_clients` in which the first loop has filled the array for `poll`: whatever
  -- `poll` reports, only a client with the first descriptor of the array is then read from, sent to
  -- or closed. All others, though they are in the array, are left as the first loop left them.
  pub service_clients-first :
      (get_vhost : AnyVhost) (mess : Leftovers) (poolid fd : ℕ) (fds : List ℕ) (ns : List Node)
      (s s' : State os) (w : World)
      → visit_all os mem get_vhost mess poolid s.clienthead s.world ≡ some (ns, fd ∷ fds, w)
      → service_clients os mem get_vhost mess poolid s ≡ some s'
      → Untouched fd ns s'.clienthead
  unfolding service_clients
  service_clients-first get_vhost mess poolid fd fds ns s s' w visited ended =
      from_polled (serve_polled os mem (fd ∷ fds) ns w) (serve_polled-Leaves fd fds ns w)
        (rw (service_clients, visited) at ended)
    where
      from_polled :
          (o : Option (List Node × World))
          → Leaves os fd ns o
          → elim o [ none ↦ none | some (ns', w') ↦ some (record { clienthead = ns'; world = w' }) ]
            ≡ some s'
          → Untouched fd ns s'.clienthead
      from_polled none h e = cc e
      from_polled (some r) h e =
          let left : State os = record { clienthead = r.0; world = r.1 } in
          let same : left ≡ s' = cc e in
          subst (λ (st : State os). Untouched fd ns st.clienthead) same h
