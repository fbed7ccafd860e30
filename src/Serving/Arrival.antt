-- ===== src/Serving/Arrival.antt =====
-- The first bytes of a connection: the client that `create_new_client` makes, and the turn that
-- receives.
use sillyweb.Base.{
  ℕ, ◌%◌, ◌≤◌, ◌≡◌, refl, ap, ◌∙◌, true, false, ◌&&◌, ◌==◌, ==_refl, List, [], ◌∷◌, ◌++◌, length,
  take, drop, take_all, drop_all, none, some, Bytes, pos, is_positive, is_nonzero, arith,
}
use sillyweb.Memory.{Allocator, IsAmple, block}
use sillyweb.Buffer.{Buffer, new_buffer}
use sillyweb.Buffer.Content.{content, IsValid}
use sillyweb.Platform.{Platform, Received}
use sillyweb.Service.{Vhost, Server, Transport, tcp, ssl, plain}
use sillyweb.Client.{Client}
use sillyweb.Clients.{add_new_client_struct}
use sillyweb.Request.Parse.{AnyVhost}
use sillyweb.Transport.{transport_recv}
use sillyweb.Transfer.{pump_store, plain_transfer_recv, transfer_recv, network_block_size, room}
use sillyweb.Transfer.Pump.{IsBounded, append_received-IsBounded}
use sillyweb.Listening.{
  Network, Accepted, new_client, num_cpus, get_default_vhost, create_new_client,
}
use sillyweb.Serving.{Leftovers, serve_client, service_clients}
use sillyweb.Serving.Loop.{
  IsPolled, alone, visit-answering, answer_request-silent, service_clients-serves,
}

-- What a receiving call gives of the bytes that are pending.
abbrev pub Takes : {W : Type 0} → (rest sent pending : W → Bytes) → ℕ → W → Received × W → Type 0
Takes rest sent pending n w r =
    (r.0.count ≡ pos (length r.0.bytes))
    × (r.0.bytes ≡ take n (pending w))
    × (pending r.1 ≡ drop n (pending w))
    × (sent r.1 ≡ sent w)
    × (rest r.1 ≡ rest w)

-- While bytes are pending `poll` reports the connection as readable, and they are received.
pub record IsArrival (os : Platform) (rest sent pending : os.World → Bytes) : Type 0 where
  pub poll_readable :
      (fd : ℕ) (w : os.World)
      → 1 ≤ length (pending w)
      → (os.poll (fd ∷ []) w).0
        ≡ (pos 1, record { failed = false; readable = true; writable = true })
  pub recv_takes : (sock n : ℕ) (w : os.World) → Takes rest sent pending n w (os.recv sock n w)
  pub ssl_read_takes :
      (ctx n : ℕ) (w : os.World) → Takes rest sent pending n w (os.ssl_read ctx n w)

-- A client of the thread that has sent nothing yet, as `create_new_client` leaves it.
pub record IsFresh (poolid : ℕ) (c : Client) : Type 0 where
  pub alive : c.active ≡ true
  pub own : c.thread_pool_id ≡ poolid
  pub idle : c.transfer_in_progress ≡ false
  pub no_file : is_positive c.pump_fd ≡ false
  pub is_plain : c.transfer ≡ plain
  pub valid : IsValid c.inputbuffer
  pub silent : c.inputbuffer.len ≡ 0

-- The world when one block was received.
abbrev pub after_recv : (os : Platform) → Client → os.World → os.World
after_recv os c w =
    (transport_recv os c.server.transport c network_block_size (os.poll (c.sock ∷ []) w).1).1

module _ (os : Platform) (mem : Allocator) (ample : IsAmple mem)
    (rest sent pending : os.World → Bytes) (polled : IsPolled os rest sent pending)
    (arrival : IsArrival os rest sent pending) where
  open os use {World}

  transport_recv-Takes :
      (t : Transport) (c : Client) (n : ℕ) (w : World)
      → Takes rest sent pending n w (transport_recv os t c n w)
  unfolding transport_recv
  transport_recv-Takes tcp c n w = arrival.recv_takes c.sock n w
  transport_recv-Takes ssl c n w = arrival.ssl_read_takes c.sslctx n w

  -- All that is pending comes into the input buffer.
  plain_transfer_recv-all :
      (c : Client) (w : World)
      → is_positive c.pump_fd ≡ false
      → IsValid c.inputbuffer
      → c.inputbuffer.len ≡ 0
      → 1 ≤ length (pending w)
      → length (pending w) ≤ network_block_size
      → (b : Buffer) × (plain_transfer_recv os mem c w
          ≡ some (
            record c { inputbuffer = b },
            (transport_recv os c.server.transport c network_block_size w).1,
          ))
        × IsValid b
        × (content b ≡ pending w)
  unfolding plain_transfer_recv pump_store
  plain_transfer_recv-all c w no_file valid empty more fits =
      let r = (transport_recv os c.server.transport c network_block_size w).0 in
      let (count, bytes, _, _, _) =
        transport_recv-Takes c.server.transport c network_block_size w in
      let whole : r.bytes ≡ pending w = bytes ∙ take_all network_block_size (pending w) fits in
      let size : length r.bytes ≡ length (pending w) = ap (λ (t : Bytes). length t) whole in
      let some_bytes : is_nonzero r.count ≡ true = rw count (ground (arith, size, more)) in
      let old : IsBounded c.inputbuffer = record {
        valid = valid;
        bounded = omega (arith, empty);
      } in
      let (b, e, v, same) =
        append_received-IsBounded mem ample c.inputbuffer r old count
          (omega (arith, size, fits, ap room empty)) in
      let no_pump : (is_positive c.pump_fd && c.transfer_in_progress) ≡ false = rw no_file refl in
      (
        b,
        rw (plain_transfer_recv, some_bytes, e, pump_store, no_pump) refl,
        v.valid,
        same ∙ ap (λ k. take k (block c.inputbuffer.buffer) ++ r.bytes) empty ∙ whole,
      )

  -- The turn that receives what the client has sent.
  pub service_clients-receives :
      (get_vhost : AnyVhost) (mess : Leftovers) (poolid address : ℕ) (c : Client) (w : World)
      → IsFresh poolid c
      → 1 ≤ length (pending w)
      → length (pending w) ≤ network_block_size
      → (b : Buffer) × (service_clients os mem get_vhost mess poolid (alone os address c w)
          ≡ some (alone os address (record c { inputbuffer = b }) (after_recv os c w)))
        × IsValid b
        × (content b ≡ pending w)
        × (pending (after_recv os c w) ≡ [])
        × (sent (after_recv os c w) ≡ sent w)
  unfolding serve_client transfer_recv
  service_clients-receives get_vhost mess poolid address c w h more fits =
      let v = (os.poll (c.sock ∷ []) w).1 in
      let kept : pending v ≡ pending w = polled.poll_pending c.sock w in
      let size : length (pending v) ≡ length (pending w) = ap (λ (t : Bytes). length t) kept in
      let (b, e, valid, all) =
        plain_transfer_recv-all c v h.no_file h.valid h.silent (omega (arith, size, more))
          (omega (arith, size, fits)) in
      let (_, _, left, quiet, _) = transport_recv-Takes c.server.transport c network_block_size v in
      let mine : (poolid == c.thread_pool_id) ≡ true = rw h.own (==_refl poolid) in
      (
        b,
        service_clients-serves os mem get_vhost mess poolid address c c
            (record c { inputbuffer = b }) w w (after_recv os c w)
            (record { failed = false; readable = true; writable = true })
            (visit-answering os mem get_vhost mess poolid c c w w h.alive (rw h.idle refl) mine
              (answer_request-silent os mem get_vhost mess c w h.silent))
            refl (arrival.poll_readable c.sock w more)
            (ap (λ t. transfer_recv os mem t c v) h.is_plain ∙ e),
        valid,
        all ∙ kept,
        left ∙ drop_all network_block_size (pending v) (omega (arith, size, fits)),
        quiet ∙ polled.poll_quiet c.sock w,
      )

-- What `create_new_client` puts into an empty list is such a client, of the only thread.
create_new_client-IsFresh :
    (os : Platform) (net : Network os.World) (mem : Allocator) (ample : IsAmple mem)
    (vhosts : List Vhost) (address : ℕ) (a : Accepted) (server : Server) (w : os.World)
    → (c : Client) × (w' : os.World) × (create_new_client os net mem vhosts
          (some address)
          a
          server
          (record { clienthead = []; world = w })
        ≡ some (alone os address c w'))
      × IsFresh 0 c
unfolding create_new_client new_buffer add_new_client_struct
create_new_client-IsFresh os net mem ample vhosts address a server w =
    let (r, w') = net.rand w in
    let empty : Buffer = record { buffer = none; len = 0 } in
    (
      new_client a server (get_default_vhost vhosts) (r % num_cpus) (os.time w') empty empty,
      w',
      rw (create_new_client, new_buffer, ample.calloc_ample 16) refl,
      record {
        alive = refl;
        own = omega arith;
        idle = refl;
        no_file = refl;
        is_plain = refl;
        valid = record { sized = refl; fits = omega arith };
        silent = refl;
      },
    )
