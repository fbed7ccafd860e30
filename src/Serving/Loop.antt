-- ===== src/Serving/Loop.antt =====
-- The turns of `service_clients` for one client, up to the end of the transfer and of the
-- connection.
use sillyweb.Base.{
  List, ℕ, zero, suc, ◌≡◌, refl, ap, ◌∙◌, true, false, ◌&&◌, ◌==◌, ==_refl, ltb, [], ◌∷◌, Option,
  none, some, Bytes, pos, ℤ, is_positive, if◌then◌else◌, arith,
}
use sillyweb.Memory.{Allocator}
use sillyweb.Platform.{Platform, Revents}
use sillyweb.Service.{plain}
use sillyweb.Client.{Client}
use sillyweb.Clients.{Node, State}
use sillyweb.Request.{is_client_request_complete}
use sillyweb.Request.Parse.{AnyVhost}
use sillyweb.Transfer.{plain_transfer_send, transfer_send}
use sillyweb.Transfer.Delivery.{IsPumping}
use sillyweb.Serving.{
  Leftovers, answer_request, visit, visit_all, serve_client, serve_sock, serve_polled,
  service_clients,
}

-- A connection: `pending` is what the client has sent and the server has not received. While that
-- is nothing `poll` reports the connection as writable and as nothing else, and what is read and
-- sent leaves it as it is.
pub record IsPolled (os : Platform) (rest sent pending : os.World → Bytes) : Type 0 where
  pub poll_writable :
      (fd : ℕ) (w : os.World)
      → pending w ≡ []
      → (os.poll (fd ∷ []) w).0
        ≡ (pos 1, record { failed = false; readable = false; writable = true })
  pub poll_quiet : (fd : ℕ) (w : os.World) → sent (os.poll (fd ∷ []) w).1 ≡ sent w
  pub poll_rest : (fd : ℕ) (w : os.World) → rest (os.poll (fd ∷ []) w).1 ≡ rest w
  pub poll_pending : (fd : ℕ) (w : os.World) → pending (os.poll (fd ∷ []) w).1 ≡ pending w
  pub read_pending : (fd : ℤ) (n : ℕ) (w : os.World) → pending (os.read fd n w).1 ≡ pending w
  pub send_pending :
      (sock : ℕ) (text : Bytes) (w : os.World) → pending (os.send sock text w).1 ≡ pending w
  pub ssl_write_pending :
      (ctx : ℕ) (text : Bytes) (w : os.World) → pending (os.ssl_write ctx text w).1 ≡ pending w

-- A client of the thread whose file is being sent, and that has sent nothing more.
pub record IsSending (poolid : ℕ) (c : Client) : Type 0 where
  pub alive : c.active ≡ true
  pub own : (poolid == c.thread_pool_id) ≡ true
  pub silent : c.inputbuffer.len ≡ 0
  pub is_plain : c.transfer ≡ plain
  pub pumping : IsPumping c

-- The list of one client.
abbrev pub alone : (os : Platform) → ℕ → Client → os.World → State os
alone os address c w = record {
  clienthead = record { address = address; client = c } ∷ [];
  world = w;
}

module _ (os : Platform) (mem : Allocator) (get_vhost : AnyVhost) (mess : Leftovers) where
  open os use {World}

  -- So many turns of a thread.
  unfoldable pub service_turns : ℕ → ℕ → State os → Option (State os)
  unfolding service_clients
  service_turns poolid zero s = some s
  service_turns poolid (suc n) s = elim (service_clients os mem get_vhost mess poolid s) [
    | none ↦ none
    | some s' ↦ service_turns poolid n s'
  ]

  pub visit-answering :
      (poolid : ℕ) (c c' : Client) (w w' : World)
      → c.active ≡ true
      → (c.transfer_in_progress && c.transfer_completed) ≡ false
      → (poolid == c.thread_pool_id) ≡ true
      → answer_request os mem get_vhost mess c w ≡ some (c', w')
      → visit os mem get_vhost mess poolid c w ≡ some (c', w', true)
  unfolding visit
  visit-answering poolid c c' w w' alive going own e = rw (visit, alive, going, own, e) refl

  pub answer_request-silent :
      (c : Client) (w : World)
      → c.inputbuffer.len ≡ 0
      → answer_request os mem get_vhost mess c w ≡ some (c, w)
  unfolding answer_request is_client_request_complete
  answer_request-silent c w h =
      let short : ltb 4 c.inputbuffer.len ≡ false = ground (arith, h) in
      let waits : is_client_request_complete c.inputbuffer (mess.behind c) ≡ some false =
        rw short refl in
      rw (answer_request, waits) refl

  pub visit-sending :
      (poolid : ℕ) (c : Client) (w : World)
      → IsSending poolid c
      → visit os mem get_vhost mess poolid c w ≡ some (c, w, true)
  visit-sending poolid c w h =
      visit-answering poolid c c w w h.alive (rw (h.pumping.in_progress, h.pumping.unfinished) refl)
        h.own (answer_request-silent c w h.silent)

  -- A turn: the visit, `poll`, and what is done on its report.
  pub service_clients-serves :
      (poolid address : ℕ) (c c₁ c₂ : Client) (w w₁ w₂ : World) (r : Revents)
      → visit os mem get_vhost mess poolid c w ≡ some (c₁, w₁, true)
      → c₁.sock ≡ c.sock
      → (os.poll (c.sock ∷ []) w₁).0 ≡ (pos 1, r)
      → serve_client os mem r c₁ (os.poll (c.sock ∷ []) w₁).1 ≡ some (c₂, w₂)
      → service_clients os mem get_vhost mess poolid (alone os address c w)
        ≡ some (alone os address c₂ w₂)
  unfolding service_clients visit_all serve_polled serve_sock
  service_clients-serves poolid address c c₁ c₂ w w₁ w₂ r e same report served =
      let v = (os.poll (c.sock ∷ []) w₁).1 in
      let ns : List Node = record { address = address; client = c₁ } ∷ [] in
      let found : (c₁.sock == c.sock) ≡ true = rw same (==_refl c.sock) in
      let at_sock : serve_sock os mem c.sock r ns v
          ≡ some (record { address = address; client = c₂ } ∷ [], w₂) =
        rw (serve_sock, found, served) refl in
      let after : serve_polled os mem (c.sock ∷ []) ns w₁
          ≡ some (record { address = address; client = c₂ } ∷ [], w₂) =
        ap
          (λ (p : ℤ × Revents).
            if is_positive p.0 then serve_sock os mem c.sock p.1 ns v else some (ns, v))
          report
        ∙ at_sock in
      rw (service_clients, visit_all, e, after) refl

  -- A turn of the transfer, when nothing is to be received.
  pub service_clients-sends :
      (rest sent pending : World → Bytes)
      → IsPolled os rest sent pending
      → (poolid address : ℕ) (c c₁ c₂ : Client) (w w₁ w₂ : World)
      → visit os mem get_vhost mess poolid c w ≡ some (c₁, w₁, true)
      → c₁.sock ≡ c.sock
      → c₁.transfer ≡ plain
      → pending w₁ ≡ []
      → plain_transfer_send os mem c₁ (os.poll (c.sock ∷ []) w₁).1 ≡ some (c₂, w₂)
      → service_clients os mem get_vhost mess poolid (alone os address c w)
        ≡ some (alone os address c₂ w₂)
  unfolding serve_client transfer_send
  service_clients-sends rest sent pending polled poolid address c c₁ c₂ w w₁ w₂ e same is_plain
        silent sends =
      service_clients-serves poolid address c c₁ c₂ w w₁ w₂
        (record { failed = false; readable = false; writable = true }) e same
        (polled.poll_writable c.sock w₁ silent)
        (ap (λ t. transfer_send os mem t c₁ (os.poll (c.sock ∷ []) w₁).1) is_plain ∙ sends)

  pub service_turns-turn :
      (poolid n : ℕ) (s s' : State os)
      → service_clients os mem get_vhost mess poolid s ≡ some s'
      → service_turns poolid (suc n) s ≡ service_turns poolid n s'
  unfolding service_turns
  service_turns-turn poolid n s s' e = rw (service_turns, e) refl
