-- ===== src/Client.antt =====
-- client.h and client.c: a connection, and what is reset between its requests.
use sillyweb.Base.{ℕ, Bool, false, List, Option, none, if◌then◌else◌, Bytes, ℤ, pos, is_nonzero}
use sillyweb.Buffer.{Buffer, free_buffer}
use sillyweb.Headers.{Header, del_headers}
use sillyweb.Platform.{Platform}
use sillyweb.Service.{Vhost, Server, Transfer, HttpMethod}

-- The bits of `flags`; no other bit is ever set.
pub record Flags : Type 0 where
  pub line_ending_uses_cr : Bool
  pub http_1_0 : Bool
  pub http_1_1 : Bool
  pub close : Bool

abbrev pub no_flags : Flags
no_flags = record { line_ending_uses_cr = false; http_1_0 = false; http_1_1 = false; close = false }

-- `client_t`, without the fields that nothing uses. Flags that are only 0 or 1 are Booleans, and an
-- `sslctx` of 0 is NULL.
pub record Client : Type 0 where
  pub active : Bool
  pub thread_pool_id : ℕ
  pub sock : ℕ
  pub flags : Flags
  pub inputbuffer : Buffer
  pub outputbuffer : Buffer
  pub inbound_headers : List Header
  pub outbound_headers : List Header
  pub uri : Option Bytes
  pub query : Option Bytes
  pub localpath : Option Bytes
  pub cleanlocalpath : Option Bytes
  pub filename : Option Bytes
  pub pump_fd : ℤ
  pub request_complete : Bool
  pub is_cgi_request : Bool
  pub response_complete : Bool
  pub request_parsed : Bool
  pub transfer_in_progress : Bool
  pub transfer_completed : Bool
  pub result_code : ℕ
  pub vhost : Option Vhost
  pub method : Option HttpMethod
  pub server : Server
  pub transfer : Transfer
  pub sslctx : ℕ
  pub client_connected : ℕ
  pub ipaddrstr : Option Bytes
  pub srcport : ℕ

module _ (os : Platform) where
  open os use {World}

  -- `clear_client`: the descriptor of a file that is being sent is closed.
  unfoldable pub clear_client : Client → World → Client × World
  clear_client c w =
      let w' = if is_nonzero c.pump_fd then os.close c.pump_fd w else w in
      (
        record c {
          uri = none;
          query = none;
          pump_fd = pos 0;
          outputbuffer = free_buffer c.outputbuffer;
          inputbuffer = free_buffer c.inputbuffer;
          inbound_headers = del_headers c.inbound_headers;
          outbound_headers = del_headers c.outbound_headers;
          request_complete = false;
          request_parsed = false;
          response_complete = false;
          client_connected = os.time w';
          flags = no_flags;
        },
        w',
      )

  unfoldable pub close_connect : Client → Client
  close_connect c = record c { active = false }
