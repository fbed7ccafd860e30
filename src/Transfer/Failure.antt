-- ===== src/Transfer/Failure.antt =====
-- What `plain_transfer_send` does when the client's connection fails.
use sillyweb.Base.{
  ℕ, ◌^◌, ◌<◌, ◌≡◌, ◌≢◌, if_false, refl, false, some, take, min, negsuc, to_size, is_positive, ◌&&◌,
  not, arith, ◌==◌,
}
use sillyweb.Memory.{Allocator, block}
use sillyweb.Buffer.{Buffer, clear_buffer, ltrim_buffer}
use sillyweb.Buffer.Content.{IsValid}
use sillyweb.Platform.{Platform}
use sillyweb.Client.{Client}
use sillyweb.Transport.{transport_send}
use sillyweb.Transfer.{network_block_size, room, pump_in, pump_out, plain_transfer_send}

module _ (os : Platform) (mem : Allocator) where
  open os use {World}

  ltrim_buffer-huge :
      (b : Buffer) (n : ℕ) → b.len < n → ltrim_buffer mem b n ≡ some (clear_buffer b)
  unfolding ltrim_buffer
  ltrim_buffer-huge b n h = ground arith

  pump_in-idle :
      (c : Client) (w : World) → c.transfer_in_progress ≡ false → pump_in os mem c w ≡ some (c, w)
  unfolding pump_in
  pump_in-idle c w idle =
      if_false
        {b = is_positive c.pump_fd && c.transfer_in_progress && not (room c.outputbuffer.len == 0)}
        _ _ (ground (arith, idle))

  pump_out-failed :
      (c : Client) (w : World)
      → c.outputbuffer.len < 2 ^ 32
      → (c.outputbuffer.len == 0) ≡ false
      → (transport_send os c.server.transport c
          (take (min c.outputbuffer.len network_block_size) (block c.outputbuffer.buffer))
          w).0
        ≡ negsuc 0
      → (w' : World) × (pump_out os mem c w
          ≡ some (record c { outputbuffer = clear_buffer c.outputbuffer }, w'))
  unfolding pump_out
  pump_out-failed c w fits some_left failed = (
    (transport_send os c.server.transport c
        (take (min c.outputbuffer.len network_block_size) (block c.outputbuffer.buffer)) w).1,
    rw
        (
          pump_out,
          some_left,
          failed,
          ltrim_buffer-huge c.outputbuffer (to_size (negsuc 0)) (omega arith),
        )
        refl,
  )

  -- On a client with no transfer in progress and a valid output buffer that is not empty: when the
  -- send returns -1, `plain_transfer_send` throws away all that was in the output buffer, as -1
  -- passes for the number of bytes that were sent, and changes nothing else of the client.
  pub plain_transfer_send-failed :
      (c : Client) (w : World)
      → c.transfer_in_progress ≡ false
      → IsValid c.outputbuffer
      → c.outputbuffer.len ≢ 0
      → (transport_send os c.server.transport c
          (take (min c.outputbuffer.len network_block_size) (block c.outputbuffer.buffer))
          w).0
        ≡ negsuc 0
      → (w' : World) × (plain_transfer_send os mem c w
          ≡ some (record c { outputbuffer = clear_buffer c.outputbuffer }, w'))
  unfolding plain_transfer_send
  plain_transfer_send-failed c w idle v some_left failed =
      let (w', e) = pump_out-failed c w v.fits (ground (arith, some_left)) failed in
      (w', rw (plain_transfer_send, pump_in-idle c w idle) e)
