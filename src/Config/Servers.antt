-- ===== src/Config/Servers.antt =====
-- What `config_load_config` and `config_add_server_port` make of files that describe servers.
use sillyweb.Base.{
  ℕ, ◌^◌, ◌<◌, ◌≡◌, refl, ap, ◌∙◌, true, false, List, [], ◌∷◌, ◌++◌, map, All, some, Bytes, codes,
  arith, same, decimal, read_digits-decimal, decimal-IsDigit, decimal-positive, append_assoc,
  append-nil,
}
use sillyweb.Memory.{Allocator}
use sillyweb.Listening.{add_new_server_struct}
use sillyweb.Config.{call_callback}
use sillyweb.Config.Entries.{Fits, IsWhole, run_entries, config_load-run_entries}
use sillyweb.Config.Handlers.{
  Library, id_or_root, config_set_int_handler, config_set_string_handler, config_set_gid,
  config_set_uid,
}
use sillyweb.Config.Settings.{
  Settings, zero_server, sizeof_server, port_config, config_add_server_port, main_config,
  config_load_config,
}
use sillyweb.Config.Ports.{
  IsStandard, IsValue, Port, IsPort, port_entries, value-Fits, value-IsWhole, port_entries-Fits,
  port_entries-IsWhole, IsFileOf, PortFile, IsPortFile, main_entries, described_by,
}

module _ (lib : Library) (standard : IsStandard lib) where
  strtol-decimal : (n : ℕ) → n < 2 ^ 31 → lib.strtol (decimal n) ≡ n
  strtol-decimal n h =
      standard.strtol_reads (decimal n) (decimal-IsDigit n) (decimal-positive n)
        (rw (read_digits-decimal n) h)
      ∙ read_digits-decimal n

  valid-decimal : (n : ℕ) → lib.is_invalid (decimal n) ≡ false
  valid-decimal n = standard.strtol_valid (decimal n) (decimal-IsDigit n) (decimal-positive n)

  run_entries-port :
      (d : Port)
      → IsPort d
      → run_entries (port_config lib false) (port_entries d) zero_server
        ≡ (record zero_server { bind_address = some d.address; port = d.port; ssl = d.ssl }, true)
  unfolding run_entries call_callback same config_set_int_handler config_set_string_handler
  run_entries-port d h =
      rw
        (
          standard.strdup_copies d.address,
          strtol-decimal d.port h.port_int,
          valid-decimal d.port,
          strtol-decimal d.ssl h.ssl_int,
          valid-decimal d.ssl,
        )
        refl

  config_add_server_port-described :
      (mem : Allocator) (f : PortFile) (ctx : Settings)
      → mem.calloc sizeof_server ≡ true
      → IsPortFile lib f
      → config_add_server_port lib mem f.path ctx
        ≡ (record ctx { serverhead = ctx.serverhead ++ described_by f ∷ [] }, true)
  unfolding config_add_server_port add_new_server_struct
  config_add_server_port-described mem f ctx had h =
      let loaded =
        config_load-run_entries lib.files (lib.junk f.path) f.path
          (port_config lib (lib.stale_errno f.path)) (port_entries f.content) zero_server
          h.file.opens h.file.holds (port_entries-Fits f.content h.is_port)
          (port_entries-IsWhole f.content h.is_port)
        ∙ ap (λ b. run_entries (port_config lib b) (port_entries f.content) zero_server) h.no_error
        ∙ run_entries-port f.content h.is_port in
      rw (had, loaded) refl

  main_entries-Fits :
      (fs : List PortFile) (user group : Bytes)
      → All (IsPortFile lib) fs
      → IsValue user
      → IsValue group
      → All Fits (main_entries fs user group)
  main_entries-Fits [] user group h u g = (
    value-Fits (codes "UID") user (ground arith) (omega arith) u,
    (value-Fits (codes "GID") group (ground arith) (omega arith) g, tt),
  )
  main_entries-Fits (f ∷ fs) user group (h, hs) u g = (
    value-Fits (codes "PORT") f.path (ground arith) (omega arith) h.path_value,
    main_entries-Fits fs user group hs u g,
  )

  main_entries-IsWhole :
      (fs : List PortFile) (user group : Bytes)
      → All (IsPortFile lib) fs
      → IsValue user
      → IsValue group
      → All IsWhole (main_entries fs user group)
  main_entries-IsWhole [] user group h u g = (
    value-IsWhole (codes "UID") user (omega arith) (ground arith) u,
    (value-IsWhole (codes "GID") group (omega arith) (ground arith) g, tt),
  )
  main_entries-IsWhole (f ∷ fs) user group (h, hs) u g = (
    value-IsWhole (codes "PORT") f.path (omega arith) (ground arith) h.path_value,
    main_entries-IsWhole fs user group hs u g,
  )

  module _ (mem : Allocator) (had : mem.calloc sizeof_server ≡ true) (user group : Bytes) where
    -- The settings with the servers of the files, and the ids of the user and the group.
    abbrev pub configured : List PortFile → Settings → Settings
    configured fs s = record s {
      serverhead = s.serverhead ++ map described_by fs;
      servicesetuid = id_or_root (lib.getpwnam user);
      servicesetgid = id_or_root (lib.getgrnam group);
    }

    run_entries-main :
        (fs : List PortFile) (s : Settings)
        → All (IsPortFile lib) fs
        → run_entries (main_config lib mem) (main_entries fs user group) s ≡ (configured fs s, true)
    unfolding run_entries call_callback same config_set_gid config_set_uid
    run_entries-main [] s h = rw (append-nil s.serverhead) refl
    run_entries-main (f ∷ fs) s (h, hs) =
        let regroup = append_assoc s.serverhead (described_by f ∷ []) (map described_by fs) in
        rw (config_add_server_port-described mem f s had h) (
          run_entries-main fs (record s { serverhead = s.serverhead ++ described_by f ∷ [] }) hs
          ∙ rw regroup refl)

    -- With memory at hand, for a main file that opens and has exactly these lines, in this order:
    -- "PORT" for each port file, "UID" and "GID"; and for port files that open and have exactly a
    -- line "BINDADDRESS", a line "PORT" and a line "SSL", in this order, with numbers below 2 ^ 31,
    -- while `errno` is not EINVAL when a port file is read. Then `config_load_config` returns 1.
    -- Behind the servers that were there it has put those of the files, in their order, each with
    -- its address and its port and with the TLS transport unless "SSL" is 0. It has set the ids of
    -- the user and the group, 0 for a name that is unknown, and nothing else.
    pub config_load_config-configured :
        (config : Bytes) (fs : List PortFile) (s : Settings)
        → IsFileOf lib config (main_entries fs user group)
        → All (IsPortFile lib) fs
        → IsValue user
        → IsValue group
        → config_load_config lib mem config s ≡ (configured fs s, true)
    unfolding config_load_config
    config_load_config-configured config fs s main h u g =
        config_load-run_entries lib.files (lib.junk config) config (main_config lib mem)
          (main_entries fs user group) s main.opens main.holds
          (main_entries-Fits fs user group h u g) (main_entries-IsWhole fs user group h u g)
        ∙ run_entries-main fs s h
