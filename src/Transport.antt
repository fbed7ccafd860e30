-- ===== src/Transport.antt =====
-- transport.c: the two ways to talk to a client. Nothing calls `open`.
use sillyweb.Base.{ℕ, Option, none, some, Bytes, ℤ, pos}
use sillyweb.Platform.{Platform, Received}
use sillyweb.Service.{Transport, tcp, ssl}
use sillyweb.Client.{Client}

-- The calls of OpenSSL for a new connection; a pointer is a number, NULL is 0.
pub record Tls (World : Type 0) : Type 0 where
  pub ssl_new : ℕ → World → ℕ × World
  pub ssl_set_fd : ℕ → ℕ → World → World

-- `client->server->transport->open`, with `sslctx` of the structure that `client->service` points
-- to. That pointer, which nothing sets, is read through only for TLS.
unfoldable pub transport_open :
    {World : Type 0}
    → Tls World
    → Transport
    → Option ℕ
    → Client
    → World
    → Option (ℤ × Client × World)
transport_open tls tcp service c w = some (pos 1, c, w)
transport_open tls ssl none c w = none
transport_open tls ssl (some sslctx) c w =
    let (ctx, w') = tls.ssl_new sslctx w in
    some (pos c.sock, record c { sslctx = ctx }, tls.ssl_set_fd ctx c.sock w')

module _ (os : Platform) where
  open os use {World}

  -- `client->server->transport->send`
  unfoldable pub transport_send : Transport → Client → Bytes → World → ℤ × World
  transport_send tcp c buffer w = os.send c.sock buffer w
  transport_send ssl c buffer w = os.ssl_write c.sslctx buffer w

  -- `client->server->transport->recv`
  unfoldable pub transport_recv : Transport → Client → ℕ → World → Received × World
  transport_recv tcp c length w = os.recv c.sock length w
  transport_recv ssl c length w = os.ssl_read c.sslctx length w

  -- `client->server->transport->close`, whose result no caller reads
  unfoldable pub transport_close : Transport → Client → World → World
  transport_close tcp c w = os.close (pos c.sock) w
  transport_close ssl c w = os.close (pos c.sock) (os.ssl_free c.sslctx w)
