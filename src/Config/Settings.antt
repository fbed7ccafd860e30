-- ===== src/Config/Settings.antt =====
-- main.c: `config_load_config`, `config_add_server_port` and `config_add_vhost`.
use sillyweb.Base.{
  ℕ, Bool, true, false, ◌&&◌, ◌==◌, List, [], ◌∷◌, Option, none, some, if◌then◌else◌, Bytes, codes,
  pos,
}
use sillyweb.Memory.{Allocator}
use sillyweb.Service.{Vhost, Server, tcp, ssl}
use sillyweb.Listening.{add_new_server_struct, add_new_vhost_struct}
use sillyweb.Config.{ConfigCallback, config_load_callbackable_config}
use sillyweb.Config.Handlers.{
  Library, config_set_int_handler, config_set_string_handler, config_set_gid, config_set_uid,
}

-- The part of `SERVICE_DATA` that the configuration sets.
pub record Settings : Type 0 where
  pub serverhead : List Server
  pub vhost_head : List Vhost
  pub servicesetuid : ℕ
  pub servicesetgid : ℕ

-- The structures from `calloc`. The transport is NULL at first, and set before the server is in the
-- list.
abbrev pub zero_server : Server
zero_server = record {
  port = 0;
  server_sock = pos 0;
  bind_address = none;
  sin_port = 0;
  ssl = 0;
  transport = tcp;
}

abbrev pub zero_vhost : Vhost
zero_vhost = record {
  document_root = none;
  cgi_bin_root = none;
  admin_email = none;
  hostname = none;
  logfilename = none;
  ssl = 0;
  sslcert = none;
  sslkey = none;
}

-- On x86-64.
abbrev pub sizeof_server : ℕ
sizeof_server = 120

abbrev pub sizeof_vhost : ℕ
sizeof_vhost = 96

module _ (lib : Library) where
  abbrev string_to {ℓ} : {S : Type ℓ} → Bytes → (Option Bytes → S → S) → ConfigCallback S
  string_to name set = record {
    varname = name;
    callback = config_set_string_handler lib (some set);
  }

  abbrev int_to {ℓ} : {S : Type ℓ} → Bool → Bytes → (ℕ → S → S) → ConfigCallback S
  int_to stale name set = record {
    varname = name;
    callback = config_set_int_handler lib stale (some set);
  }

  -- `stale` says whether `errno` is EINVAL when the file is read.
  abbrev pub port_config : Bool → List (ConfigCallback Server)
  port_config stale =
      string_to (codes "BINDADDRESS") (λ t s. record s { bind_address = t })
      ∷ int_to stale (codes "PORT") (λ n s. record s { port = n })
      ∷ int_to stale (codes "SSL") (λ n s. record s { ssl = n })
      ∷ []

  abbrev pub vhost_config : Bool → List (ConfigCallback Vhost)
  vhost_config stale =
      string_to (codes "ADMIN") (λ t v. record v { admin_email = t })
      ∷ string_to (codes "HOSTNAME") (λ t v. record v { hostname = t })
      ∷ string_to (codes "WEBROOT") (λ t v. record v { document_root = t })
      ∷ string_to (codes "CGI_ROOT") (λ t v. record v { cgi_bin_root = t })
      ∷ string_to (codes "LOGFILE") (λ t v. record v { logfilename = t })
      ∷ int_to stale (codes "SSL") (λ n v. record v { ssl = n })
      ∷ string_to (codes "CERT") (λ t v. record v { sslcert = t })
      ∷ string_to (codes "CERT_KEYFILE") (λ t v. record v { sslkey = t })
      ∷ []

  -- The transport for the value of "SSL".
  abbrev pub with_transport : Server → Server
  with_transport s = record s { transport = if s.ssl == 0 then tcp else ssl }

  -- `config_add_server_port`, where `had` says whether there is memory.
  unfoldable pub config_add_server_port : Allocator → Bytes → Settings → Settings × Bool
  unfolding config_load_callbackable_config add_new_server_struct
  config_add_server_port mem portfile ctx =
      if mem.calloc sizeof_server
      then (let (newserver, ret) =
            config_load_callbackable_config lib.files (lib.junk portfile) portfile
              (port_config (lib.stale_errno portfile)) zero_server in
          if ret
          then (
            record ctx {
              serverhead = add_new_server_struct ctx.serverhead (with_transport newserver);
            },
            true,
          )
          else (ctx, false))
      else (ctx, false)

  -- The two calls of `realpath`, each of which leaves the path as it is if it fails.
  abbrev pub real_document_root : Vhost × Bool → Vhost × Bool
  real_document_root (v, ret) = elim (lib.realpath v.document_root) [
    | none ↦ (v, false)
    | some tpath ↦ (record v { document_root = some tpath }, ret)
  ]

  abbrev pub real_cgi_bin_root : Vhost × Bool → Vhost × Bool
  real_cgi_bin_root (v, ret) = elim (lib.realpath v.cgi_bin_root) [
    | none ↦ (v, false)
    | some tpath ↦ (record v { cgi_bin_root = some tpath }, ret)
  ]

  -- Every call for TLS is made, and each that fails makes the result 0.
  abbrev pub with_certificate : Vhost × Bool → Vhost × Bool
  with_certificate (v, ret) = if v.ssl == 0 then (v, ret) else (
    v,
    ret
        && (lib.use_certificate_file v.sslcert
            && (lib.use_private_key_file v.sslkey
                && (lib.check_private_key v.sslcert v.sslkey
                    && lib.set_tlsext_servername_callback))),
  )

  -- What is done with a virtual host when its file is read.
  unfoldable pub complete_vhost : Vhost × Bool → Vhost × Bool
  complete_vhost (v, false) = (v, false)
  complete_vhost (v, true) = with_certificate (real_cgi_bin_root (real_document_root (v, true)))

  -- `config_add_vhost`: the virtual host is in the list whatever the result.
  unfoldable pub config_add_vhost : Allocator → Bytes → Settings → Settings × Bool
  unfolding config_load_callbackable_config complete_vhost add_new_vhost_struct
  config_add_vhost mem vhostfile ctx =
      if mem.calloc sizeof_vhost
      then (let (newvhost, ret) = complete_vhost (
            config_load_callbackable_config lib.files (lib.junk vhostfile) vhostfile
              (vhost_config (lib.stale_errno vhostfile)) zero_vhost) in
          (record ctx { vhost_head = add_new_vhost_struct ctx.vhost_head newvhost }, ret))
      else (ctx, false)

  abbrev pub main_config : Allocator → List (ConfigCallback Settings)
  main_config mem =
      record { varname = codes "PORT"; callback = config_add_server_port mem }
      ∷ record { varname = codes "VHOST"; callback = config_add_vhost mem }
      ∷ record {
        varname = codes "UID";
        callback = config_set_uid lib λ id s. record s { servicesetuid = id };
      }
      ∷ record {
        varname = codes "GID";
        callback = config_set_gid lib λ id s. record s { servicesetgid = id };
      }
      ∷ []

  unfoldable pub config_load_config : Allocator → Bytes → Settings → Settings × Bool
  unfolding config_load_callbackable_config
  config_load_config mem config s =
      config_load_callbackable_config lib.files (lib.junk config) config (main_config mem) s
