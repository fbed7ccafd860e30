-- ===== src/Transfer/Pump.antt =====
-- What `plain_transfer_send` does to the bytes of the file on their way to the client.
use sillyweb.Base.{
  ℕ, zero, suc, ◌+◌, ◌≤◌, ◌≡◌, refl, sym, ap, ◌∙◌, inl, inr, true, false, not, ◌&&◌, ◌==◌, some, [],
  ◌∷◌, ◌++◌, length, take, drop, min, if◌then◌else◌, Bytes, ℤ, pos, is_positive, is_nonzero,
  to_size, arith, append_assoc, append-nil, take_all, take-append-drop, length-take, length-drop,
  Bool-cases,
}
use sillyweb.Memory.{Allocator, IsAmple, block}
use sillyweb.Buffer.{Buffer, ltrim_buffer}
use sillyweb.Buffer.Content.{
  content, length-content, IsValid, append_buffer-AppendsTo, ltrim_buffer-Trims,
}
use sillyweb.Platform.{Platform, Received}
use sillyweb.Service.{Transport, tcp, ssl}
use sillyweb.Transport.{transport_send}
use sillyweb.Client.{Client}
use sillyweb.Transfer.{
  network_block_size, room, append_received, pump_in, pump_out, plain_transfer_send,
}

-- No call fails: `read` returns the number of the bytes that it put into the array, at most as many
-- as were asked for, and the sends return how many bytes of the text they took, the first ones.
-- `sent` is what was taken so far.
pub record IsLink (os : Platform) (sent : os.World → Bytes) : Type 0 where
  pub read_counts :
      (fd : ℤ) (n : ℕ) (w : os.World)
      → (os.read fd n w).0.count ≡ pos (length (os.read fd n w).0.bytes)
  pub read_fits : (fd : ℤ) (n : ℕ) (w : os.World) → length (os.read fd n w).0.bytes ≤ n
  pub read_quiet : (fd : ℤ) (n : ℕ) (w : os.World) → sent (os.read fd n w).1 ≡ sent w
  pub send_takes :
      (sock : ℕ) (text : Bytes) (w : os.World)
      → (k : ℕ) × ((os.send sock text w).0 ≡ pos k)
        × (k ≤ length text)
        × (sent (os.send sock text w).1 ≡ sent w ++ take k text)
  pub ssl_write_takes :
      (ctx : ℕ) (text : Bytes) (w : os.World)
      → (k : ℕ) × ((os.ssl_write ctx text w).0 ≡ pos k)
        × (k ≤ length text)
        × (sent (os.ssl_write ctx text w).1 ≡ sent w ++ take k text)

-- The bytes that `plain_transfer_send` reads from the file.
abbrev pub fetched : (os : Platform) → Client → os.World → Bytes
fetched os c w =
    if is_positive c.pump_fd && c.transfer_in_progress && not (room c.outputbuffer.len == 0)
    then (os.read c.pump_fd (room c.outputbuffer.len) w).0.bytes
    else []

-- A valid buffer of at most a block.
pub record IsBounded (b : Buffer) : Type 0 where
  pub valid : IsValid b
  pub bounded : b.len ≤ network_block_size

nonzero-nil : (z : ℤ) (t : Bytes) → z ≡ pos (length t) → is_nonzero z ≡ false → t ≡ []
nonzero-nil z [] h k = refl
nonzero-nil z (x ∷ t) h k = absurd (ground (arith, ap is_nonzero h))

take-none : (k : ℕ) (t : Bytes) → is_nonzero (pos k) ≡ false → take k t ≡ []
take-none zero t h = refl
take-none (suc k) t h = absurd (ground (arith, h))

module _ (mem : Allocator) (ample : IsAmple mem) where
  pub append_received-IsBounded :
      (b : Buffer) (r : Received)
      → IsBounded b
      → r.count ≡ pos (length r.bytes)
      → length r.bytes ≤ room b.len
      → (b' : Buffer) × (append_received mem b r ≡ some b')
        × IsBounded b'
        × (content b' ≡ content b ++ r.bytes)
  unfolding append_received
  append_received-IsBounded b r v count fits =
      let n = length r.bytes in
      let small : n + b.len ≤ 512 = ground (arith, v.bounded) in
      let size : to_size r.count ≡ n = rw count (omega arith) in
      let ((b', ok), e, s) =
        append_buffer-AppendsTo mem b r.bytes n v.valid (omega arith) (omega arith) in
      elim s [
        | inl (taken, valid, same, long) ↦ (
          b',
          rw (size, e) (ground (arith, small)),
          record { valid = valid; bounded = omega arith },
          same ∙ ap (λ t. content b ++ t) (take_all n r.bytes (omega arith)),
        )
        | inr (lost, gone, kept, failed) ↦ absurd (ample.realloc_ample _ _ failed)
      ]

  pub ltrim_buffer-IsBounded :
      (b : Buffer) (k : ℕ)
      → IsBounded b
      → (b' : Buffer) × (ltrim_buffer mem b k ≡ some b')
        × IsValid b'
        × (content b' ≡ drop k (content b))
  ltrim_buffer-IsBounded b k v =
      let (b', e, s) = ltrim_buffer-Trims mem b k v.valid in
      elim s [
        | inl (valid, same) ↦ (b', e, valid, same)
        | inr (lost, left, sum, (q, failed)) ↦ absurd (ample.realloc_ample _ _ failed)
      ]

module _ (os : Platform) (mem : Allocator) (ample : IsAmple mem) (sent : os.World → Bytes)
    (link : IsLink os sent) where
  open os use {World}

  -- The first block reads `fetched` into the output buffer and sends nothing.
  pump_in-lem :
      (c : Client) (w : World)
      → IsBounded c.outputbuffer
      → (c' : Client) × (w' : World) × (pump_in os mem c w ≡ some (c', w'))
        × IsBounded c'.outputbuffer
        × (content c'.outputbuffer ≡ content c.outputbuffer ++ fetched os c w)
        × (sent w' ≡ sent w)
  unfolding pump_in
  pump_in-lem c w v =
      elim (Bool-cases
        (is_positive c.pump_fd && c.transfer_in_progress && not (room c.outputbuffer.len == 0))) [
          | inl on ↦
              let n = room c.outputbuffer.len in
              let r = (os.read c.pump_fd n w).0 in
              let count : r.count ≡ pos (length r.bytes) = link.read_counts c.pump_fd n w in
              let fits : length r.bytes ≤ n = link.read_fits c.pump_fd n w in
              elim (Bool-cases (is_nonzero r.count)) [
                | inl some_bytes ↦
                    let (b, e, v', same) =
                      append_received-IsBounded mem ample c.outputbuffer r v count fits in
                    (
                      record c { outputbuffer = b },
                      (os.read c.pump_fd n w).1,
                      rw (on, some_bytes, e) refl,
                      v',
                      rw on same,
                      link.read_quiet c.pump_fd n w,
                    )
                | inr at_end ↦ (
                  record c { transfer_completed = true },
                  (os.read c.pump_fd n w).1,
                  rw (on, at_end) refl,
                  v,
                  rw (on, nonzero-nil r.count r.bytes count at_end) (sym (append-nil _)),
                  link.read_quiet c.pump_fd n w,
                )
              ]
          | inr off ↦ (c, w, rw off refl, v, rw off (sym (append-nil _)), refl)
        ]

  -- A send of the client's transport takes a prefix of the text.
  transport_send-takes :
      (t : Transport) (c : Client) (text : Bytes) (w : World)
      → (k : ℕ) × ((transport_send os t c text w).0 ≡ pos k)
        × (k ≤ length text)
        × (sent (transport_send os t c text w).1 ≡ sent w ++ take k text)
  unfolding transport_send
  transport_send-takes tcp c text w = link.send_takes c.sock text w
  transport_send-takes ssl c text w = link.ssl_write_takes c.sslctx text w

  -- The second block moves a prefix of the output buffer to the client.
  pump_out-lem :
      (c : Client) (w : World)
      → IsBounded c.outputbuffer
      → (c' : Client) × (w' : World) × (pump_out os mem c w ≡ some (c', w'))
        × IsBounded c'.outputbuffer
        × (sent w' ++ content c'.outputbuffer ≡ sent w ++ content c.outputbuffer)
  unfolding pump_out
  pump_out-lem c w v = elim (Bool-cases (c.outputbuffer.len == 0)) [
    | inl empty ↦ (c, w, rw empty refl, v, refl)
    | inr some_left ↦
        let text = take (min c.outputbuffer.len network_block_size) (block c.outputbuffer.buffer) in
        let whole : text ≡ content c.outputbuffer =
          ap (λ n. take n (block c.outputbuffer.buffer)) (omega (arith, v.bounded)) in
        let (k, l, le, out) = transport_send-takes c.server.transport c text w in
        let after = (transport_send os c.server.transport c text w).1 in
        let long : length text ≤ 512 = omega (
          arith,
          v.bounded,
          length-take (min c.outputbuffer.len network_block_size) (block c.outputbuffer.buffer),
        ) in
        let size : to_size (pos k) ≡ k = omega arith in
        elim (Bool-cases (is_nonzero (pos k))) [
          | inl some_bytes ↦
              let (b, e, valid, same) = ltrim_buffer-IsBounded mem ample c.outputbuffer k v in
              (
                record c { outputbuffer = b },
                after,
                rw (some_left, l, some_bytes, size, e) refl,
                record {
                  valid = valid;
                  bounded = omega (
                    arith,
                    length-content b valid,
                    ap (λ (t : Bytes). length t) same,
                    length-drop k (content c.outputbuffer),
                    length-content c.outputbuffer v.valid,
                    v.bounded,
                  );
                },
                rw (same, out, ← whole)
                    (append_assoc (sent w) (take k text) (drop k text)
                      ∙ ap (λ t. sent w ++ t) (take-append-drop k text)),
              )
          | inr at_end ↦ (
            record c { transfer_completed = true },
            after,
            rw (some_left, l, at_end) refl,
            v,
            ap (λ t. t ++ content c.outputbuffer)
                (out ∙ (ap (λ t. sent w ++ t) (take-none k text at_end) ∙ append-nil (sent w))),
          )
        ]
  ]

  -- While no call fails and there is memory, `plain_transfer_send` on a valid output buffer of at
  -- most 512 bytes stays within its blocks and leaves such a buffer. Nothing is lost, doubled or
  -- put out of order: what the client got so far, followed by the buffer, has become what it was
  -- before, followed by the bytes that were read from the file.
  pub plain_transfer_send-conserves :
      (c : Client) (w : World)
      → IsBounded c.outputbuffer
      → (c' : Client) × (w' : World) × (plain_transfer_send os mem c w ≡ some (c', w'))
        × IsBounded c'.outputbuffer
        × (sent w' ++ content c'.outputbuffer
            ≡ (sent w ++ content c.outputbuffer) ++ fetched os c w)
  unfolding plain_transfer_send
  plain_transfer_send-conserves c w v =
      let (c₁, w₁, e₁, v₁, read, quiet) = pump_in-lem c w v in
      let (c₂, w₂, e₂, v₂, same) = pump_out-lem c₁ w₁ v₁ in
      (
        c₂,
        w₂,
        rw (plain_transfer_send, e₁) e₂,
        v₂,
        same
            ∙ rw (quiet, read)
                (sym (append_assoc (sent w) (content c.outputbuffer) (fetched os c w))),
      )
