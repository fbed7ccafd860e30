-- ===== src/Serving/Turns.antt =====
-- The clients of the list over a turn of `service_clients`: their addresses, and their result
-- codes.
use sillyweb.Base.{
  ℕ, ◌≡◌, refl, ◌∙◌, inl, inr, Bool, true, ◌&&◌, List, [], ◌∷◌, Option, none, some, ◌==◌,
  Bool-cases, is_positive, Option-cases,
}
use sillyweb.Memory.{Allocator}
use sillyweb.Platform.{Platform, Revents}
use sillyweb.Client.{Client}
use sillyweb.Clients.{Node, State}
use sillyweb.Request.Parse.{AnyVhost}
use sillyweb.Serving.{
  Leftovers, finish_transfer, answer_request, visit, visit_all, serve_client, serve_sock,
  serve_polled, service_clients,
}
use sillyweb.Serving.Codes.{Codes, serve_client-Codes, finish_transfer-code}
use sillyweb.Serving.Answers.{IsSoundCode}
use sillyweb.Serving.Requests.{answer_request-Codes}

-- The same nodes, in the same order, each of a client whose code is sound if it was.
abbrev pub Kept : List Node → List Node → Type 0
Kept [] [] = Unit
Kept (n ∷ ns) (m ∷ ms) =
    (m.address ≡ n.address)
    × (IsSoundCode n.client.result_code → IsSoundCode m.client.result_code)
    × Kept ns ms
Kept _ _ = ⊥

Kept-refl : (ns : List Node) → Kept ns ns
Kept-refl [] = tt
Kept-refl (n ∷ ns) = (refl, (λ h. h), Kept-refl ns)

Kept-trans : (ls ms ns : List Node) → Kept ls ms → Kept ms ns → Kept ls ns
Kept-trans [] [] [] h k = tt
Kept-trans [] [] (n ∷ ns) h k = elim k [ ]
Kept-trans [] (m ∷ ms) ns h k = elim h [ ]
Kept-trans (l ∷ ls) [] ns h k = elim h [ ]
Kept-trans (l ∷ ls) (m ∷ ms) [] h k = elim k [ ]
Kept-trans (l ∷ ls) (m ∷ ms) (n ∷ ns) (h, h', hs) (k, k', ks) =
    (k ∙ h, (λ x. k' (h' x)), Kept-trans ls ms ns hs ks)

-- What a loop leaves, if it ends.
abbrev KeptIn : {W : Type 0} → List Node → Option (List Node × W) → Type 0
KeptIn ns none = Unit
KeptIn ns (some r) = Kept ns r.0

abbrev KeptOver : {W : Type 0} → List Node → Option (List Node × List ℕ × W) → Type 0
KeptOver ns none = Unit
KeptOver ns (some r) = Kept ns r.0

-- The code, if a round of the loop ends.
abbrev Sound : {W : Type 0} → Option (Client × W × Bool) → Type 0
Sound none = Unit
Sound (some r) = IsSoundCode r.0.result_code

module _ (os : Platform) (mem : Allocator) (get_vhost : AnyVhost) (mess : Leftovers) where
  open os use {World}

  visit-Sound :
      (poolid : ℕ) (c : Client) (w : World)
      → IsSoundCode c.result_code
      → Sound (visit os mem get_vhost mess poolid c w)
  unfolding visit
  visit-Sound poolid c w h = elim (Bool-cases c.active) [
    | inr dead ↦ rw (visit, dead) h
    | inl alive ↦ elim (Bool-cases (c.transfer_in_progress && c.transfer_completed)) [
      | inl done ↦ rw (visit, alive, done) (finished _ w h)
      | inr more ↦ elim (Bool-cases (poolid == c.thread_pool_id)) [
        | inr other ↦ rw (visit, alive, more, other) h
        | inl own ↦
            rw (visit, alive, more, own)
              (polled (answer_request os mem get_vhost mess c w)
                (answer_request-Codes os mem get_vhost mess c w h))
      ]
    ]
  ]
    where
      finished :
          (d : Client) (u : World)
          → IsSoundCode d.result_code
          → IsSoundCode (finish_transfer os d u).0.result_code
      finished d u k = rw (finish_transfer-code os d u) k

      polled :
          (o : Option (Client × World))
          → Codes IsSoundCode o
          → Sound (elim o [ none ↦ none | some (c', w') ↦ some (c', w', true) ])
      polled none h = tt
      polled (some r) h = h

  visit_all-Kept :
      (poolid : ℕ) (ns : List Node) (w : World)
      → KeptOver ns (visit_all os mem get_vhost mess poolid ns w)
  unfolding visit_all
  visit_all-Kept poolid [] w = tt
  visit_all-Kept poolid (n ∷ ns) w =
      elim (Option-cases (visit os mem get_vhost mess poolid n.client w)) [
        | inl e ↦ rw (visit_all, e) tt
        | inr ((c, w', polled), e) ↦
            elim (Option-cases (visit_all os mem get_vhost mess poolid ns w')) [
              | inl e' ↦ rw (visit_all, e, e') tt
              | inr ((ns', fds, w''), e') ↦
                  rw (visit_all, e, e')
                    (
                      refl,
                      (λ h. (rw e at (visit-Sound poolid n.client w h))),
                      (rw e' at (visit_all-Kept poolid ns w')),
                    )
            ]
      ]

module _ (os : Platform) (mem : Allocator) where
  open os use {World}

  serve_sock-Kept :
      (fd : ℕ) (r : Revents) (ns : List Node) (w : World) → KeptIn ns (serve_sock os mem fd r ns w)
  unfolding serve_sock
  serve_sock-Kept fd r [] w = tt
  serve_sock-Kept fd r (n ∷ ns) w = elim (Bool-cases (n.client.sock == fd)) [
    | inl same ↦ elim (Option-cases (serve_client os mem r n.client w)) [
      | inl e ↦ rw (serve_sock, same, e) tt
      | inr ((c, w'), e) ↦
          rw (serve_sock, same, e)
            (
              refl,
              (λ h. (rw e at (serve_client-Codes os mem IsSoundCode r n.client w h))),
              Kept-refl ns,
            )
    ]
    | inr other ↦ elim (Option-cases (serve_sock os mem fd r ns w)) [
      | inl e ↦ rw (serve_sock, other, e) tt
      | inr ((ns', w'), e) ↦
          rw (serve_sock, other, e) (refl, (λ h. h), (rw e at (serve_sock-Kept fd r ns w)))
    ]
  ]

  serve_polled-Kept :
      (fds : List ℕ) (ns : List Node) (w : World) → KeptIn ns (serve_polled os mem fds ns w)
  unfolding serve_polled
  serve_polled-Kept [] ns w = Kept-refl ns
  serve_polled-Kept (fd ∷ fds) ns w = elim (Bool-cases (is_positive (os.poll (fd ∷ fds) w).0.0)) [
    | inl ready ↦
        rw ready (serve_sock-Kept fd (os.poll (fd ∷ fds) w).0.1 ns (os.poll (fd ∷ fds) w).1)
    | inr idle ↦ rw idle (Kept-refl ns)
  ]

module _ (os : Platform) (mem : Allocator) (get_vhost : AnyVhost) (mess : Leftovers) where
  -- What a turn leaves, if it ends.
  abbrev pub KeptTurn : State os → Option (State os) → Type 0
  KeptTurn s none = Unit
  KeptTurn s (some s') = Kept s.clienthead s'.clienthead

  pub service_clients-Kept :
      (poolid : ℕ) (s : State os) → KeptTurn s (service_clients os mem get_vhost mess poolid s)
  unfolding service_clients
  service_clients-Kept poolid s =
      elim (Option-cases (visit_all os mem get_vhost mess poolid s.clienthead s.world)) [
        | inl e ↦ rw (service_clients, e) tt
        | inr ((ns, fds, w), e) ↦ elim (Option-cases (serve_polled os mem fds ns w)) [
          | inl e' ↦ rw (service_clients, e, e') tt
          | inr ((ns', w'), e') ↦
              rw (service_clients, e, e')
                (Kept-trans s.clienthead ns ns'
                  (rw e at (visit_all-Kept os mem get_vhost mess poolid s.clienthead s.world))
                  (rw e' at (serve_polled-Kept os mem fds ns w)))
        ]
      ]
