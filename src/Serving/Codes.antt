-- ===== src/Serving/Codes.antt =====
-- The result code of a client, over the turns of the service.
use sillyweb.Base.{ℕ, ◌≡◌, Bool, true, ◌||◌, Option, none, some, ◌==◌, arith}
use sillyweb.Memory.{Allocator}
use sillyweb.Transport.{transport_recv}
use sillyweb.Buffer.{Buffer}
use sillyweb.Http.Texts.{is_used}
use sillyweb.Platform.{Platform, Revents}
use sillyweb.Service.{Transfer, plain, chunked, gzip}
use sillyweb.Client.{Client, clear_client, close_connect}
use sillyweb.Transfer.{
  pump_in, pump_out, plain_transfer_send, pump_store, plain_transfer_recv, transfer_open,
  transfer_send, transfer_recv, transfer_close, plain_transfer_open, chunked_transfer_open,
  gzip_transfer_open, plain_transfer_close, gzip_transfer_close, network_block_size,
}
use sillyweb.Serving.{finish_transfer, serve_client}

-- No code yet, or one of which the table has a text.
abbrev pub is_sound : ℕ → Bool
is_sound n = n == 0 || is_used n

-- What is left, if the code ends, has this result code.
abbrev pub Codes : {W : Type 0} → (ℕ → Type 0) → Option (Client × W) → Type 0
Codes P none = Unit
Codes P (some r) = P r.0.result_code

pub Codes-bind :
    {W : Type 0} (P Q : ℕ → Type 0) (o : Option (Client × W)) (f : Client × W → Option (Client × W))
    → Codes P o
    → ((r : Client × W) → P r.0.result_code → Codes Q (f r))
    → Codes Q (elim o [ none ↦ none | some r ↦ f r ])
Codes-bind P Q none f h k = tt
Codes-bind P Q (some r) f h k = k r h

module _ (os : Platform) (mem : Allocator) (P : ℕ → Type 0) where
  open os use {World}

  pump_in-Codes : (c : Client) (w : World) → P c.result_code → Codes P (pump_in os mem c w)
  unfolding pump_in
  pump_in-Codes c w h = ground arith

  pump_out-Codes : (c : Client) (w : World) → P c.result_code → Codes P (pump_out os mem c w)
  unfolding pump_out
  pump_out-Codes c w h = ground arith

  pump_store-Codes : (c : Client) (w : World) → P c.result_code → Codes P (pump_store os mem c w)
  unfolding pump_store
  pump_store-Codes c w h = ground arith

  plain_transfer_recv-Codes :
      (c : Client) (w : World) → P c.result_code → Codes P (plain_transfer_recv os mem c w)
  unfolding plain_transfer_recv
  plain_transfer_recv-Codes c w h = ground (
    arith,
    λ (b : Buffer).
        pump_store-Codes (record c { inputbuffer = b })
          (transport_recv os c.server.transport c network_block_size w).1 h,
    pump_store-Codes (record c { transfer_completed = true })
        (transport_recv os c.server.transport c network_block_size w).1 h,
  )

  transfer_send-Codes :
      (t : Transfer) (c : Client) (w : World)
      → P c.result_code
      → Codes P (transfer_send os mem t c w)
  unfolding transfer_send plain_transfer_send
  transfer_send-Codes plain c w h =
      Codes-bind P P (pump_in os mem c w) (λ r. pump_out os mem r.0 r.1) (pump_in-Codes c w h)
        λ r k. pump_out-Codes r.0 r.1 k
  transfer_send-Codes chunked c w h = h
  transfer_send-Codes gzip c w h = h

  transfer_recv-Codes :
      (t : Transfer) (c : Client) (w : World)
      → P c.result_code
      → Codes P (transfer_recv os mem t c w)
  unfolding transfer_recv
  transfer_recv-Codes plain c w h = plain_transfer_recv-Codes c w h
  transfer_recv-Codes chunked c w h = h
  transfer_recv-Codes gzip c w h = h

  plain_transfer_open-Codes :
      (c : Client) (w : World) → P c.result_code → Codes P (plain_transfer_open os mem c w)
  unfolding plain_transfer_open
  plain_transfer_open-Codes c w h = ground arith

  pub transfer_open-Codes :
      (t : Transfer) (c : Client) (w : World)
      → P c.result_code
      → Codes P (transfer_open os mem t c w)
  unfolding transfer_open chunked_transfer_open gzip_transfer_open
  transfer_open-Codes plain c w h = plain_transfer_open-Codes c w h
  transfer_open-Codes chunked c w h = ground arith
  transfer_open-Codes gzip c w h = ground arith

  pub serve_client-Codes :
      (r : Revents) (c : Client) (w : World) → P c.result_code → Codes P (serve_client os mem r c w)
  unfolding serve_client close_connect
  serve_client-Codes r c w h =
      ground (arith, transfer_recv-Codes c.transfer c w h, transfer_send-Codes c.transfer c w h)

pub finish_transfer-code :
    (os : Platform) (c : Client) (w : os.World)
    → (finish_transfer os c w).0.result_code ≡ c.result_code
unfolding finish_transfer clear_client transfer_close plain_transfer_close gzip_transfer_close
finish_transfer-code os c w = ground arith
