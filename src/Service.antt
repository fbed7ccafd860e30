-- ===== src/Service.antt =====
-- vhost.h, server.h, http.h, transport.h and transfer.h: the structures that clients point to.
use sillyweb.Base.{ℕ, List, [], ◌∷◌, Option, Bytes, codes, ℤ}

-- `vhost_t`, without the log's descriptor, the ids, which nothing sets, and the TLS context. NULL
-- strings are `none`; `ssl` is an `int`, as its 32 bits.
pub record Vhost : Type 0 where
  pub document_root : Option Bytes
  pub cgi_bin_root : Option Bytes
  pub admin_email : Option Bytes
  pub hostname : Option Bytes
  pub logfilename : Option Bytes
  pub ssl : ℕ
  pub sslcert : Option Bytes
  pub sslkey : Option Bytes

-- `SERVER_TRANSPORT_METHODS`
pub data Transport : Type 0 where
  tcp ssl : Transport

-- The entries of `SERVER_TRANSFER_METHODS`.
pub data Transfer : Type 0 where
  plain chunked gzip : Transfer

-- `server_t`, without the mutex, the TLS context and the fields that nothing uses. `sin_port` is
-- the port of `addr`, in the byte order of the host: `htons` and `ntohs` undo each other. `port`
-- and `ssl` are their 32 bits.
pub record Server : Type 0 where
  pub port : ℕ
  pub server_sock : ℤ
  pub bind_address : Option Bytes
  pub sin_port : ℕ
  pub ssl : ℕ
  pub transport : Transport

-- The handlers that an entry of `METHOD_HANDLERS` points to.
pub data Handler : Type 0 where
  get_request_handler null_request_handler : Handler

-- `struct HTTP_Method`
pub record HttpMethod : Type 0 where
  pub method : Bytes
  pub handler : Handler

abbrev entry : Bytes → Handler → HttpMethod
entry m h = record { method = m; handler = h }

abbrev pub method_handlers : List HttpMethod
method_handlers =
    entry (codes "GET") get_request_handler
    ∷ entry (codes "PUT") null_request_handler
    ∷ entry (codes "POST") null_request_handler
    ∷ entry (codes "PUT") null_request_handler
    ∷ entry (codes "DELETE") null_request_handler
    ∷ entry (codes "TRACE") null_request_handler
    ∷ entry (codes "CONNECT") null_request_handler
    ∷ entry (codes "HEAD") null_request_handler
    ∷ entry (codes "OPTIONS") null_request_handler
    ∷ []
