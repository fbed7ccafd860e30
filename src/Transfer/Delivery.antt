-- ===== src/Transfer/Delivery.antt =====
-- A whole file on its way to the client, over the turns of `plain_transfer_send`.
use sillyweb.Base.{
  ℕ, zero, suc, ◌<◌, ◌≤◌, ◌≡◌, ◌⊎◌, refl, sym, ap, ◌∙◌, inl, inr, true, false, Option, none, some,
  [], ◌∷◌, ◌++◌, length, take, drop, min, Bytes, ℤ, pos, is_positive, is_nonzero, to_size, arith,
  append_assoc, append-nil, take-append-drop, length-take, length-drop, length-append, drop_all,
  ◌==◌, not, ◌&&◌,
}
use sillyweb.Memory.{Allocator, IsAmple, block}
use sillyweb.Buffer.{Buffer}
use sillyweb.Buffer.Content.{content, length-content, IsValid}
use sillyweb.Platform.{Platform}
use sillyweb.Service.{Transport, tcp, ssl}
use sillyweb.Transport.{transport_send}
use sillyweb.Client.{Client}
use sillyweb.Transfer.{
  network_block_size, room, append_received, pump_in, pump_out, plain_transfer_send,
}
use sillyweb.Transfer.Pump.{IsBounded, append_received-IsBounded, ltrim_buffer-IsBounded}

-- A file that is read from, and a connection that takes every text whole. `rest` is what was not
-- read yet, and `sent` what was taken so far.
pub record IsDelivery (os : Platform) (rest sent : os.World → Bytes) : Type 0 where
  pub read_count :
      (fd : ℤ) (n : ℕ) (w : os.World)
      → (os.read fd n w).0.count ≡ pos (length (os.read fd n w).0.bytes)
  pub read_bytes : (fd : ℤ) (n : ℕ) (w : os.World) → (os.read fd n w).0.bytes ≡ take n (rest w)
  pub read_rest : (fd : ℤ) (n : ℕ) (w : os.World) → rest (os.read fd n w).1 ≡ drop n (rest w)
  pub read_quiet : (fd : ℤ) (n : ℕ) (w : os.World) → sent (os.read fd n w).1 ≡ sent w
  pub send_takes :
      (sock : ℕ) (text : Bytes) (w : os.World)
      → ((os.send sock text w).0 ≡ pos (length text))
        × (sent (os.send sock text w).1 ≡ sent w ++ text)
        × (rest (os.send sock text w).1 ≡ rest w)
  pub ssl_write_takes :
      (ctx : ℕ) (text : Bytes) (w : os.World)
      → ((os.ssl_write ctx text w).0 ≡ pos (length text))
        × (sent (os.ssl_write ctx text w).1 ≡ sent w ++ text)
        × (rest (os.ssl_write ctx text w).1 ≡ rest w)

-- A file is open and being sent, and all that was read is sent.
pub record IsPumping (c : Client) : Type 0 where
  pub has_file : is_positive c.pump_fd ≡ true
  pub in_progress : c.transfer_in_progress ≡ true
  pub unfinished : c.transfer_completed ≡ false
  pub valid : IsValid c.outputbuffer
  pub empty : c.outputbuffer.len ≡ 0

-- Turns of `plain_transfer_send`, up to the one that completes the transfer, at most `n`.
unfoldable pub send_turns :
    (os : Platform) → Allocator → ℕ → Client → os.World → Option (Client × os.World)
unfolding plain_transfer_send
send_turns os mem zero c w = some (c, w)
send_turns os mem (suc n) c w = elim c.transfer_completed [
  | true ↦ some (c, w)
  | false ↦ elim (plain_transfer_send os mem c w) [
    | none ↦ none
    | some (c', w') ↦ send_turns os mem n c' w'
  ]
]

module _ (os : Platform) (mem : Allocator) (ample : IsAmple mem) (rest sent : os.World → Bytes)
    (link : IsDelivery os rest sent) where
  open os use {World}

  transport_send-takes_all :
      (t : Transport) (c : Client) (text : Bytes) (w : World)
      → ((transport_send os t c text w).0 ≡ pos (length text))
        × (sent (transport_send os t c text w).1 ≡ sent w ++ text)
        × (rest (transport_send os t c text w).1 ≡ rest w)
  unfolding transport_send
  transport_send-takes_all tcp c text w = link.send_takes c.sock text w
  transport_send-takes_all ssl c text w = link.ssl_write_takes c.sslctx text w

  -- The second block, on a buffer that is not empty: all of it is sent.
  pump_out-all :
      (c : Client) (w : World)
      → IsBounded c.outputbuffer
      → 1 ≤ c.outputbuffer.len
      → (b : Buffer) × (w' : World) × (pump_out os mem c w
          ≡ some (record c { outputbuffer = b }, w'))
        × IsValid b
        × (b.len ≡ 0)
        × (sent w' ≡ sent w ++ content c.outputbuffer)
        × (rest w' ≡ rest w)
  unfolding pump_out
  pump_out-all c w v long =
      let text = take (min c.outputbuffer.len network_block_size) (block c.outputbuffer.buffer) in
      let whole : text ≡ content c.outputbuffer =
        ap (λ n. take n (block c.outputbuffer.buffer)) (omega (arith, v.bounded)) in
      let (l, out, left) = transport_send-takes_all c.server.transport c text w in
      let size : length text ≡ c.outputbuffer.len =
        ap (λ (t : Bytes). length t) whole ∙ length-content c.outputbuffer v.valid in
      let some_left : (c.outputbuffer.len == 0) ≡ false = ground arith in
      let some_bytes : is_nonzero (pos (length text)) ≡ true = rw size (ground arith) in
      let to : to_size (pos (length text)) ≡ length text = omega (arith, size, v.bounded) in
      let (b, e, valid, same) = ltrim_buffer-IsBounded mem ample c.outputbuffer (length text) v in
      let none_left : content b ≡ [] =
        same
        ∙ drop_all (length text) (content c.outputbuffer)
            (omega (arith, size, length-content c.outputbuffer v.valid)) in
      (
        b,
        (transport_send os c.server.transport c text w).1,
        rw (some_left, l, some_bytes, to, e) refl,
        valid,
        sym (length-content b valid) ∙ ap (λ (t : Bytes). length t) none_left,
        out ∙ ap (λ t. sent w ++ t) whole,
        left,
      )

  pub rest-cases : (t : Bytes) → (t ≡ []) ⊎ (1 ≤ length t)
  rest-cases [] = inl refl
  rest-cases (x ∷ t) = inr (omega arith)

  -- A transfer that is completed is left alone.
  completed :
      (n : ℕ) (c : Client) (w : World)
      → c.transfer_completed ≡ true
      → send_turns os mem n c w ≡ some (c, w)
  unfolding send_turns
  completed zero c w h = refl
  completed (suc n) c w h = rw (send_turns, h, ← h) refl

  -- A turn at the end of the file.
  pub turn_at_end :
      (c : Client) (w : World)
      → IsPumping c
      → rest w ≡ []
      → (w' : World) × (plain_transfer_send os mem c w
          ≡ some (record c { transfer_completed = true }, w'))
        × (sent w' ≡ sent w)
  unfolding plain_transfer_send pump_in pump_out
  turn_at_end c w h ended =
      let n = room c.outputbuffer.len in
      let r = (os.read c.pump_fd n w).0 in
      let none_read : r.bytes ≡ [] =
        link.read_bytes c.pump_fd n w ∙ ap (take n) ended ∙ nothing n in
      let count : r.count ≡ pos 0 =
        link.read_count c.pump_fd n w ∙ ap (λ (t : Bytes). pos (length t)) none_read in
      let on : (is_positive c.pump_fd && c.transfer_in_progress && not (n == 0)) ≡ true =
        rw (h.has_file, h.in_progress, h.empty) refl in
      let still : (c.outputbuffer.len == 0) ≡ true = rw h.empty refl in
      (
        (os.read c.pump_fd n w).1,
        rw (plain_transfer_send, pump_in, on, count, pump_out, still) refl,
        link.read_quiet c.pump_fd n w,
      )
    where
      nothing : (n : ℕ) → ◌≡◌ {A = Bytes} (take n []) []
      nothing zero = refl
      nothing (suc n) = refl

  pump_in-block :
      (c : Client) (w : World) (b : Buffer)
      → (is_positive c.pump_fd && c.transfer_in_progress && not (room c.outputbuffer.len == 0))
        ≡ true
      → is_nonzero (os.read c.pump_fd (room c.outputbuffer.len) w).0.count ≡ true
      → append_received mem c.outputbuffer (os.read c.pump_fd (room c.outputbuffer.len) w).0
        ≡ some b
      → pump_in os mem c w
        ≡ some (record c { outputbuffer = b }, (os.read c.pump_fd (room c.outputbuffer.len) w).1)
  unfolding pump_in
  pump_in-block c w b on nonzero e = rw (on, nonzero, e) refl

  abbrev sent_out : Option (Client × World) → Option (Client × World)
  sent_out o = elim o [ none ↦ none | some (c', w') ↦ pump_out os mem c' w' ]

  -- A turn before the end of the file: one block goes from the file to the client.
  pub turn_of_block :
      (c : Client) (w : World)
      → IsPumping c
      → 1 ≤ length (rest w)
      → (b : Buffer) × (w' : World) × (plain_transfer_send os mem c w
          ≡ some (record c { outputbuffer = b }, w'))
        × IsPumping (record c { outputbuffer = b })
        × (sent w' ≡ sent w ++ take 512 (rest w))
        × (rest w' ≡ drop 512 (rest w))
  unfolding plain_transfer_send
  turn_of_block c w h more =
      let n = room c.outputbuffer.len in
      let whole : n ≡ 512 = rw h.empty refl in
      let r = (os.read c.pump_fd n w).0 in
      let w₁ = (os.read c.pump_fd n w).1 in
      let bytes : r.bytes ≡ take 512 (rest w) =
        link.read_bytes c.pump_fd n w ∙ ap (λ k. take k (rest w)) whole in
      let count = link.read_count c.pump_fd n w in
      let some_read : 1 ≤ length r.bytes =
        omega (arith, ap (λ (t : Bytes). length t) bytes, length-take 512 (rest w)) in
      let nonzero : is_nonzero r.count ≡ true = rw count (ground (arith, some_read)) in
      let on : (is_positive c.pump_fd && c.transfer_in_progress && not (n == 0)) ≡ true =
        rw (h.has_file, h.in_progress, whole) refl in
      let old : IsBounded c.outputbuffer = record {
        valid = h.valid;
        bounded = omega (arith, h.empty);
      } in
      let fits : length r.bytes ≤ n =
        omega (arith, whole, ap (λ (t : Bytes). length t) bytes, length-take 512 (rest w)) in
      let (b, e, v, same) = append_received-IsBounded mem ample c.outputbuffer r old count fits in
      let taken : content b ≡ take 512 (rest w) =
        same ∙ ap (λ k. take k (block c.outputbuffer.buffer) ++ r.bytes) h.empty ∙ bytes in
      let (b', w₂, e', valid, empty, out, left) =
        pump_out-all (record c { outputbuffer = b }) w₁ v
          (omega (
            arith,
            length-content b v.valid,
            ap (λ (t : Bytes). length t) same,
            length-append (content c.outputbuffer) r.bytes,
          )) in
      (
        b',
        w₂,
        ap sent_out (pump_in-block c w b on nonzero e) ∙ e',
        record {
          has_file = h.has_file;
          in_progress = h.in_progress;
          unfinished = h.unfinished;
          valid = valid;
          empty = empty;
        },
        out ∙ rw (link.read_quiet c.pump_fd n w, taken) refl,
        left ∙ link.read_rest c.pump_fd n w ∙ ap (λ k. drop k (rest w)) whole,
      )

  -- The file goes to the client: on a file that is open and being sent, with nothing in the output
  -- buffer, while memory is at hand and the connection takes every text whole. Any number of turns
  -- of `plain_transfer_send` above the number of bytes that were not read yet completes the
  -- transfer; the client has then got, behind what it had, these bytes, and the output buffer is
  -- empty.
  pub send_turns-delivers :
      (n : ℕ) (c : Client) (w : World)
      → IsPumping c
      → length (rest w) < n
      → (c' : Client) × (w' : World) × (send_turns os mem n c w ≡ some (c', w'))
        × (c'.transfer_completed ≡ true)
        × (c'.outputbuffer.len ≡ 0)
        × (sent w' ≡ sent w ++ rest w)
  unfolding send_turns
  send_turns-delivers zero c w h enough = absurd (omega arith)
  send_turns-delivers (suc n) c w h enough = elim (rest-cases (rest w)) [
    | inl ended ↦
        let (w₁, e, quiet) = turn_at_end c w h ended in
        (
          record c { transfer_completed = true },
          w₁,
          rw (send_turns, h.unfinished, e) (completed n _ w₁ refl),
          refl,
          h.empty,
          quiet ∙ sym (ap (λ t. sent w ++ t) ended ∙ append-nil (sent w)),
        )
    | inr more ↦
        let (b, w₁, e, h₁, out, left) = turn_of_block c w h more in
        let c₁ : Client = record c { outputbuffer = b } in
        let fewer : length (rest w₁) < n =
          omega (arith, ap (λ (t : Bytes). length t) left, length-drop 512 (rest w)) in
        let (c₂, w₂, e₂, done, empty, all) = send_turns-delivers n c₁ w₁ h₁ fewer in
        (
          c₂,
          w₂,
          rw (send_turns, h.unfinished, e) e₂,
          done,
          empty,
          all
              ∙ rw (out, left)
                  (append_assoc (sent w) (take 512 (rest w)) (drop 512 (rest w))
                    ∙ ap (λ t. sent w ++ t) (take-append-drop 512 (rest w))),
        )
  ]
