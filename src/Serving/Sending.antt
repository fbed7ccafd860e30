-- ===== src/Serving/Sending.antt =====
-- The turns of `service_clients` that send a file, up to the last one.
use sillyweb.Base.{
  ℕ, zero, suc, ◌<◌, ◌≤◌, ◌≡◌, refl, sym, ap, ◌∙◌, inl, inr, true, [], ◌∷◌, ◌++◌, length,
  length-drop, take, drop, take-append-drop, append_assoc, append_cancel_right, append-nil, some,
  Bytes, arith,
}
use sillyweb.Memory.{Allocator, IsAmple}
use sillyweb.Buffer.{Buffer}
use sillyweb.Platform.{Platform}
use sillyweb.Client.{Client}
use sillyweb.Request.Parse.{AnyVhost}
use sillyweb.Transfer.{plain_transfer_send}
use sillyweb.Transfer.Delivery.{IsDelivery, IsPumping, rest-cases, turn_at_end, turn_of_block}
use sillyweb.Serving.{Leftovers, visit}
use sillyweb.Serving.Loop.{
  IsPolled, IsSending, alone, service_turns, service_turns-turn, service_clients-sends,
  visit-sending,
}

module _ (os : Platform) (mem : Allocator) (ample : IsAmple mem)
    (rest sent pending : os.World → Bytes) (link : IsDelivery os rest sent)
    (polled : IsPolled os rest sent pending) (get_vhost : AnyVhost) (mess : Leftovers) where
  open os use {World}

  -- What is pending is as much as before, seen with what was sent.
  abbrev all_of : World → Bytes
  all_of w = pending w ++ sent w

  pending-IsDelivery : IsDelivery os rest all_of
  pending-IsDelivery = record {
    read_count = link.read_count;
    read_bytes = link.read_bytes;
    read_rest = link.read_rest;
    read_quiet = λ fd n w. rw (polled.read_pending fd n w, link.read_quiet fd n w) refl;
    send_takes = λ sock text w.
        let (count, out, left) = link.send_takes sock text w in
        (
          count,
          rw (polled.send_pending sock text w, out) (sym (append_assoc (pending w) (sent w) text)),
          left,
        );
    ssl_write_takes = λ ctx text w.
        let (count, out, left) = link.ssl_write_takes ctx text w in
        (
          count,
          rw (polled.ssl_write_pending ctx text w, out)
              (sym (append_assoc (pending w) (sent w) text)),
          left,
        );
  }

  -- A block of the file is sent, and nothing is received.
  block-pending :
      (c c' : Client) (w w' : World)
      → IsPumping c
      → 1 ≤ length (rest w)
      → plain_transfer_send os mem c w ≡ some (c', w')
      → pending w' ≡ pending w
  block-pending c c' w w' h more e =
      let (b, w₁, e₁, _, out, _) = turn_of_block os mem ample rest sent link c w h more in
      let (b₂, w₂, e₂, _, all, _) =
        turn_of_block os mem ample rest all_of pending-IsDelivery c w h more in
      let same₁ : w' ≡ w₁ = cc (e, e₁) in
      let same₂ : w₂ ≡ w₁ = cc (e₂, e₁) in
      ap pending same₁
      ∙ append_cancel_right (pending w₁) (pending w) (sent w₁) (
          sym (ap all_of same₂)
          ∙ all
          ∙ append_assoc (pending w) (sent w) (take 512 (rest w))
          ∙ ap (λ t. pending w ++ t) (sym out))

  -- The transfer of `c` from `w` on is completed after at most `n` turns from `w₀` on.
  abbrev Completes : ℕ → ℕ → ℕ → Client → World → Client → World → Type 0
  Completes poolid address n c₀ w₀ c w =
      (k : ℕ) × (b : Buffer) × (w' : World) × (k ≤ n)
      × (service_turns os mem get_vhost mess poolid k (alone os address c₀ w₀)
          ≡ some (alone os address (record c { outputbuffer = b; transfer_completed = true }) w'))
      × (b.len ≡ 0)
      × (sent w' ≡ sent w ++ rest w)

  pub service_turns-Completes :
      (poolid address n : ℕ) (c₀ c : Client) (w₀ w : World)
      → visit os mem get_vhost mess poolid c₀ w₀ ≡ some (c, w, true)
      → c.sock ≡ c₀.sock
      → IsSending poolid c
      → pending w ≡ []
      → length (rest w) < n
      → Completes poolid address n c₀ w₀ c w
  unfolding service_turns
  service_turns-Completes poolid address zero c₀ c w₀ w e same h silent enough =
      absurd (omega arith)
  service_turns-Completes poolid address (suc n) c₀ c w₀ w e same h silent enough =
      let v = (os.poll (c₀.sock ∷ []) w).1 in
      let kept : rest v ≡ rest w = polled.poll_rest c₀.sock w in
      let quiet : sent v ≡ sent w = polled.poll_quiet c₀.sock w in
      elim (rest-cases os mem ample rest sent link (rest v)) [
        | inl ended ↦
            let (w', e', unsent) = turn_at_end os mem ample rest sent link c v h.pumping ended in
            (
              1,
              c.outputbuffer,
              w',
              omega arith,
              service_turns-turn os mem get_vhost mess poolid 0 (alone os address c₀ w₀) _ (
                  service_clients-sends os mem get_vhost mess rest sent pending polled poolid
                    address c₀ c _ w₀ w w' e same h.is_plain silent e'),
              h.pumping.empty,
              unsent ∙ quiet ∙ sym (ap (λ t. sent w ++ t) (sym kept ∙ ended) ∙ append-nil (sent w)),
            )
        | inr more ↦
            let (b, w₁, e₁, h₁, out, left) =
              turn_of_block os mem ample rest sent link c v h.pumping more in
            let c₁ : Client = record c { outputbuffer = b } in
            let sending : IsSending poolid c₁ = record {
              alive = h.alive;
              own = h.own;
              silent = h.silent;
              is_plain = h.is_plain;
              pumping = h₁;
            } in
            let still : pending w₁ ≡ [] =
              block-pending c c₁ v w₁ h.pumping more e₁ ∙ polled.poll_pending c₀.sock w ∙ silent in
            let fewer : length (rest w₁) < n = omega (
              arith,
              ap (λ (t : Bytes). length t) (left ∙ ap (drop 512) kept),
              length-drop 512 (rest w),
              ap (λ (t : Bytes). length t) kept,
            ) in
            let (k, b', w', le, e', empty, all) =
              service_turns-Completes poolid address n c₁ c₁ w₁ w₁
                (visit-sending os mem get_vhost mess poolid c₁ w₁ sending) refl sending still
                fewer in
            (
              suc k,
              b',
              w',
              omega (arith, le),
              service_turns-turn os mem get_vhost mess poolid k (alone os address c₀ w₀) _ (
                    service_clients-sends os mem get_vhost mess rest sent pending polled poolid
                      address c₀ c c₁ w₀ w w₁ e same h.is_plain silent e₁)
                  ∙ e',
              empty,
              all
                  ∙ rw (out, left, quiet, kept)
                      (append_assoc (sent w) (take 512 (rest w)) (drop 512 (rest w))
                        ∙ ap (λ t. sent w ++ t) (take-append-drop 512 (rest w))),
            )
      ]
