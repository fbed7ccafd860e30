-- ===== src/Serving/EndToEnd.antt =====
-- A request for a file over the turns of `service_clients`: the answer, the file, and the end.
use mathlib.Core.Path.{subst}
use native.Mathlib.Nat.{zero-add, suc-add}
use sillyweb.Base.{
  [], ◌||◌, not, Bool-cases, Option-cases, ℕ, zero, suc, ◌+◌, ◌<◌, ◌≤◌, ◌≡◌, refl, sym, ap, ◌∙◌,
  inl, inr, Bool, true, false, ◌&&◌, ◌==◌, ==_refl, ◌++◌, length, some, Bytes, codes, pos,
  if◌then◌else◌, arith,
}
use sillyweb.Memory.{Allocator, IsAmple}
use sillyweb.Http.{get_http_result_text}
use sillyweb.Log.Fits.{IsClock}
use sillyweb.Platform.{Platform}
use sillyweb.Service.{HttpMethod, Vhost, plain}
use sillyweb.Client.{Client, Flags, clear_client}
use sillyweb.Transport.{transport_close}
use sillyweb.Clients.{State}
use sillyweb.Request.{keep_alive_flags}
use sillyweb.Request.Parse.{AnyVhost}
use sillyweb.Request.Located.{keep_alive_flags-http_1_1}
use sillyweb.Request.Understood.{flags_of}
use sillyweb.Response.Stream.{status_line, header_block}
use sillyweb.Transfer.{transfer_close, plain_transfer_close}
use sillyweb.Transfer.Delivery.{IsDelivery}
use sillyweb.Dispatch.Files.{IsOpening, size_of}
use sillyweb.Serving.{
  answer_request, Leftovers, finish_transfer, visit, visit_all, serve_polled, service_clients,
}
use sillyweb.Serving.Asked.{IsForFile, answered, headers_after}
use sillyweb.Serving.Delivery.{answer_request-opens, IsQuiet, delivery-IsQuiet}
use sillyweb.Serving.Loop.{
  IsPolled, IsSending, alone, service_turns, service_turns-turn, visit-answering,
}
use sillyweb.Serving.Sending.{service_turns-Completes}

module _ (os : Platform) where
  open os use {World}

  -- What `finish_transfer` does when the file is closed.
  abbrev closing : Client × World → Client × World
  closing r =
      if r.0.flags.http_1_0 || r.0.flags.close
      then (
        record r.0 { active = false },
        transport_close os r.0.server.transport (record r.0 { active = false }) r.1,
      )
      else if r.0.flags.http_1_1
      then clear_client os r.0 r.1
      else r

  -- The connection of an HTTP/1.1 client is over, or awaits the next request.
  abbrev pub IsFinished : Bool → Client → Type 0
  IsFinished close c =
      (c.active ≡ not close) × (c.pump_fd ≡ pos 0) × (c.transfer_in_progress ≡ false)

  finish_transfer-IsFinished :
      (c : Client) (w : World)
      → c.transfer ≡ plain
      → c.active ≡ true
      → c.flags.http_1_0 ≡ false
      → c.flags.http_1_1 ≡ true
      → IsFinished c.flags.close (finish_transfer os c w).0
  unfolding finish_transfer transfer_close plain_transfer_close clear_client
  finish_transfer-IsFinished c w is_plain alive no10 yes11 =
      let e : finish_transfer os c w ≡ closing (plain_transfer_close os c w) =
        ap (λ t. closing (transfer_close os t c w)) is_plain in
      subst (λ (r : Client × World). IsFinished c.flags.close r.0) (sym e)
        (elim (Bool-cases c.flags.close) [
          | inl over ↦ rw (no10, over) (refl, refl, refl)
          | inr more ↦ rw (no10, more, yes11) (alive, refl, refl)
        ])

module _ (os : Platform) (mem : Allocator) (get_vhost : AnyVhost) (mess : Leftovers) where
  open os use {World}

  -- The turn on a client whose transfer is completed.
  service_clients-finishes :
      (poolid address : ℕ) (c : Client) (w : World)
      → c.active ≡ true
      → (c.transfer_in_progress && c.transfer_completed) ≡ true
      → service_clients os mem get_vhost mess poolid (alone os address c w)
        ≡ some (alone os address (finish_transfer os c w).0 (finish_transfer os c w).1)
  unfolding service_clients visit_all visit serve_polled
  service_clients-finishes poolid address c w alive done =
      rw (service_clients, visit_all, visit, alive, done) refl

  service_turns-add :
      (poolid m n : ℕ) (s s' s'' : State os)
      → service_turns os mem get_vhost mess poolid m s ≡ some s'
      → service_turns os mem get_vhost mess poolid n s' ≡ some s''
      → service_turns os mem get_vhost mess poolid (m + n) s ≡ some s''
  unfolding service_turns
  service_turns-add poolid zero n s s' s'' e f = rw zero-add (
      subst (λ (t : State os). service_turns os mem get_vhost mess poolid n t ≡ some s'')
        (sym (cc e)) f)
  service_turns-add poolid (suc m) n s s' s'' e f =
      elim (Option-cases (service_clients os mem get_vhost mess poolid s)) [
        | inl none_left ↦ absurd (cc (rw (service_turns, none_left) at e))
        | inr (t, turn) ↦
            rw (suc-add, service_turns, turn)
              (service_turns-add poolid m n t s' s'' (rw (service_turns, turn) at e) f)
      ]

keep_alive_flags-http_1_0 :
    (value : Bytes) (f : Flags) → (keep_alive_flags value f).http_1_0 ≡ f.http_1_0
unfolding keep_alive_flags
keep_alive_flags-http_1_0 value f = ground arith

module _ (os : Platform) (mem : Allocator) (ample : IsAmple mem) (clock : IsClock os)
    (rest sent pending : os.World → Bytes) (link : IsDelivery os rest sent)
    (opening : IsOpening os sent) (polled : IsPolled os rest sent pending) (get_vhost : AnyVhost)
    (mess : Leftovers) where
  open os use {World}

  pending-IsQuiet : IsQuiet os pending sent
  pending-IsQuiet = record {
    send_takes = λ sock text w. ((link.send_takes sock text w).1, polled.send_pending sock text w);
    ssl_write_takes =
        λ ctx text w. ((link.ssl_write_takes ctx text w).1, polled.ssl_write_pending ctx text w);
  }

  -- The answer receives nothing.
  answered-pending :
      (c c' : Client) (method uri fields : Bytes) (m : HttpMethod) (v : Vhost)
      (root path type : Bytes) (fd : ℕ) (w w' : World)
      → IsForFile os get_vhost mess c method uri fields m v root path type fd w
      → answer_request os mem get_vhost mess c w ≡ some (c', w')
      → pending w' ≡ pending (size_of os path fd w).1
  answered-pending c c' method uri fields m v root path type fd w w' h e =
      let (_, w₁, _, e₁, _, _, kept) =
        answer_request-opens os mem ample clock pending sent pending-IsQuiet opening get_vhost mess
          c method uri fields m v root path type fd w h in
      let same : w' ≡ w₁ = cc (e, e₁) in ap pending same ∙ kept

  -- The service delivers a file. On a platform that opens and seeks without sending, whose `read`
  -- gives the file, whose connection takes every text whole, whose dates have at most 25 characters
  -- and whose `poll` reports the one connection as writable and as nothing else as long as nothing
  -- is pending, while there is memory: a list of one client, alive, of this thread, with no
  -- transfer in progress, whose input buffer holds a complete request of HTTP/1.1 for a file, as
  -- `IsForFile` says, and which has nothing pending. With `n` above the number of bytes to be read
  -- of the file, after some `k ≤ n` turns of `service_clients` the transfer is completed and the
  -- client has got, behind what it had before: the status line with the text of 200, the headers
  -- that `parse_request` left, those of the file and "Connection", an empty line, and these bytes.
  -- After the next turn no file is open and no transfer in progress, and the client is dead exactly
  -- if the flags that `parse_request` left say so.
  pub service_turns-delivers :
      (poolid address n : ℕ) (c : Client) (method uri fields : Bytes) (m : HttpMethod) (v : Vhost)
      (root path type : Bytes) (fd : ℕ) (w : World)
      → c.active ≡ true
      → c.thread_pool_id ≡ poolid
      → c.transfer_in_progress ≡ false
      → IsForFile os get_vhost mess c method uri fields m v root path type fd w
      → pending (size_of os path fd w).1 ≡ []
      → length (rest (size_of os path fd w).1) < n
      → (text : Bytes) × (k : ℕ) × (c₁ : Client) × (w₁ : World) × (c₂ : Client) × (w₂ : World)
        × (get_http_result_text 200 ≡ some text)
        × (k ≤ n)
        × (service_turns os mem get_vhost mess poolid k (alone os address c w)
            ≡ some (alone os address c₁ w₁))
        × (c₁.transfer_completed ≡ true)
        × (sent w₁
            ≡ (sent w
                ++ (status_line (answered os mess c m uri fields v root path type fd w) text
                    ++ (header_block
                          (answered os mess c m uri fields v root path type fd w).outbound_headers
                        ++ codes "\r\n")))
              ++ rest (size_of os path fd w).1)
        × (service_turns os mem get_vhost mess poolid (k + 1) (alone os address c w)
            ≡ some (alone os address c₂ w₂))
        × IsFinished os (flags_of c (headers_after c fields)).close c₂
  unfolding service_turns
  service_turns-delivers poolid address n c method uri fields m v root path type fd w alive own idle
        h silent enough =
      let d = answered os mess c m uri fields v root path type fd w in
      let (text, w₀, is_text, e, pumping, out, left) =
        answer_request-opens os mem ample clock rest sent (delivery-IsQuiet os rest sent link)
          opening get_vhost mess c method uri fields m v root path type fd w h in
      let mine : (poolid == c.thread_pool_id) ≡ true = rw own (==_refl poolid) in
      let sending : IsSending poolid d = record {
        alive = alive;
        own = mine;
        silent = refl;
        is_plain = h.file.is_plain;
        pumping = pumping;
      } in
      let (k, b, w₁, le, e₁, _, all) =
        service_turns-Completes os mem ample rest sent pending link polled get_vhost mess poolid
          address n c d w w₀
          (visit-answering os mem get_vhost mess poolid c d w w₀ alive (rw idle refl) mine e) refl
          sending (answered-pending c d method uri fields m v root path type fd w w₀ h e ∙ silent)
          (omega (arith, enough, ap (λ (t : Bytes). length t) left)) in
      let c₁ : Client = record d { outputbuffer = b; transfer_completed = true } in
      (
        text,
        k,
        c₁,
        w₁,
        (finish_transfer os c₁ w₁).0,
        (finish_transfer os c₁ w₁).1,
        is_text,
        le,
        e₁,
        refl,
        all ∙ rw (out, left) refl,
        service_turns-add os mem get_vhost mess poolid k 1 (alone os address c w)
            (alone os address c₁ w₁) _ e₁
            (service_turns-turn os mem get_vhost mess poolid 0 (alone os address c₁ w₁) _
              (service_clients-finishes os mem get_vhost mess poolid address c₁ w₁ alive refl)),
        finish_transfer-IsFinished os c₁ w₁ h.file.is_plain alive (keep_alive_flags-http_1_0 _ _)
            (keep_alive_flags-http_1_1 _ _ refl),
      )
