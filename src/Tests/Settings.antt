-- ===== src/Tests/Settings.antt =====
-- The configuration and the start of the program, on files that are written out.
use sillyweb.Base.{
  ◌≡◌, ◌≢◌, ◌≤◌, ◌⊎◌, ◌==◌, ℕ, pos, negsuc, refl, true, false, List, [], ◌∷◌, ◌++◌, map, some, none,
  Bytes, codes, arith, All, length, IsText, same, decimal, read_digits, if◌then◌else◌,
}
use sillyweb.Service.{Vhost}
use sillyweb.Config.{Opened, config_load_callbackable_config}
use sillyweb.Config.Entries.{Entry, render_all}
use sillyweb.Config.Handlers.{Library, id_or_root}
use sillyweb.Config.Settings.{
  Settings, zero_vhost, vhost_config, config_load_config, config_add_vhost,
}
use sillyweb.Config.Ports.{
  IsStandard, IsValue, port_entries, PortFile, IsPortFile, IsFileOf, main_entries, described_by,
}
use sillyweb.Config.Servers.{configured, config_load_config-configured}
use sillyweb.Config.Hosts.{IsServable, config_add_vhost-IsServable}
use sillyweb.Listening.{Network}
use sillyweb.Listening.Bindings.{AllBoundFrom, IsWilling, IsApart}
use sillyweb.Start.{Privileges, running, no_settings, main}
use sillyweb.Start.Running.{IsRoot, after_ids, main-running}
use sillyweb.Tests.Env.{arena}

abbrev main_file : Bytes
main_file = codes "config/server.cfg"

abbrev port_file : PortFile
port_file = record {
  path = codes "a.prt";
  content = record { address = codes "0.0.0.0"; port = 70000; ssl = 1 };
}

abbrev main_lines : List Entry
main_lines = main_entries (port_file ∷ []) (codes "web") (codes "www")

abbrev vhost_lines : List Entry
vhost_lines =
    record { name = codes "WEBROOT"; value = codes "/srv" }
    ∷ record { name = codes "CGI_ROOT"; value = codes "/cgi" }
    ∷ []

abbrev disk : Bytes → Opened
disk path =
    if same path main_file
    then record { fd = pos 3; bytes = render_all main_lines }
    else if same path (codes "a.prt")
    then record { fd = pos 3; bytes = render_all (port_entries port_file.content) }
    else if same path (codes "a.vht")
    then record { fd = pos 3; bytes = render_all vhost_lines }
    else record { fd = pos 0; bytes = [] }

-- The group and the user are known.
abbrev c_library : Library
c_library = record {
  files = disk;
  junk = λ path. ([], []);
  strtol = λ s. read_digits 0 s;
  strtoul = λ s. read_digits 0 s;
  is_invalid = λ s. false;
  stale_errno = λ path. false;
  strdup = λ s. some s;
  getgrnam = λ s. if same s (codes "www") then some 33 else none;
  getpwnam = λ s. if same s (codes "web") then some 1000 else none;
  realpath = λ path. path;
  use_certificate_file = λ file. true;
  use_private_key_file = λ file. true;
  check_private_key = λ file key. true;
  set_tlsext_servername_callback = true;
}

c_library-IsStandard : IsStandard c_library
c_library-IsStandard = record {
  strtol_reads = λ s h k l. refl;
  strtol_valid = λ s h k. refl;
  strdup_copies = λ s. refl;
}

text-IsValue :
    (s : Bytes)
    → 1 ≤ length s
    → length s ≤ 511
    → IsText s
    → All (λ c. (c ≢ b'\n') × (c ≢ b'\r')) s
    → IsValue s
text-IsValue s h k t u = record { positive = h; short = k; text = t; chars = u }

user-IsValue : IsValue (codes "web")
user-IsValue = text-IsValue (codes "web") (omega arith) (omega arith) (ground arith) (ground arith)

group-IsValue : IsValue (codes "www")
group-IsValue = text-IsValue (codes "www") (omega arith) (omega arith) (ground arith) (ground arith)

main_file-IsFileOf : IsFileOf c_library main_file main_lines
unfolding same decimal
main_file-IsFileOf = record { opens = refl; holds = refl }

port_file-IsPortFile : IsPortFile c_library port_file
unfolding same
port_file-IsPortFile = record {
  path_value =
      text-IsValue (codes "a.prt") (omega arith) (omega arith) (ground arith) (ground arith);
  file = record { opens = refl; holds = refl };
  is_port = record {
    address_value =
        text-IsValue (codes "0.0.0.0") (omega arith) (omega arith) (ground arith) (ground arith);
    port_int = omega arith;
    ssl_int = omega arith;
  };
  no_error = refl;
}

config_load_config-configured_example : config_load_config c_library arena main_file no_settings ≡ (
  configured c_library c_library-IsStandard arena refl
      (codes "web")
      (codes "www")
      (port_file ∷ [])
      no_settings,
  true,
)
config_load_config-configured_example =
    config_load_config-configured c_library c_library-IsStandard arena refl (codes "web")
      (codes "www") main_file (port_file ∷ []) no_settings main_file-IsFileOf
      (port_file-IsPortFile, tt) user-IsValue group-IsValue

config_add_vhost-IsServable_example :
    (v : Vhost) × ((config_add_vhost c_library arena (codes "a.vht") no_settings).0
      ≡ record no_settings { vhost_head = [] ++ v ∷ [] })
    × (((config_add_vhost c_library arena (codes "a.vht") no_settings).1 ≡ false)
        ⊎ ((read : Vhost) × (config_load_callbackable_config c_library.files
                (c_library.junk (codes "a.vht"))
                (codes "a.vht")
                (vhost_config c_library false)
                zero_vhost
              ≡ (read, true))
            × IsServable c_library read v))
config_add_vhost-IsServable_example =
    config_add_vhost-IsServable c_library arena (codes "a.vht") no_settings refl

-- The user of the process. Root may become any user, and no other user may.
abbrev as_root : Privileges ℕ
as_root = record {
  getuid = λ w. w;
  setgid = λ id w. (if w == 0 then pos 0 else negsuc 0, w);
  setuid = λ id w. if w == 0 then (pos 0, id) else (negsuc 0, w);
}

-- A network that gives every call what it asks for.
abbrev quiet_network : Network ℕ
quiet_network = record {
  mutex_init = λ w. (pos 0, w);
  socket = λ w. (pos 3, w);
  reuse_address = λ fd w. (pos 0, w);
  inet_pton = λ family text. (pos 1, 0);
  bind = λ fd name w. (pos 0, w);
  listen = λ fd w. (pos 0, w);
  poll = λ fds w. ((pos 0, []), w);
  accept = λ fd w. (none, w);
  rand = λ w. (7, w);
}

quiet_network-IsWilling : IsWilling quiet_network
quiet_network-IsWilling = record {
  mutex_had = λ w. refl;
  socket_had = λ w. (3, refl);
  reuse_had = λ fd w. refl;
  bind_had = λ fd name w. refl;
  listen_had = λ fd w. refl;
}

quiet_network-IsApart : IsApart quiet_network as_root.getuid
quiet_network-IsApart = record {
  mutex_apart = λ w. refl;
  socket_apart = λ w. refl;
  reuse_apart = λ fd w. refl;
  bind_apart = λ fd name w. refl;
  listen_apart = λ fd w. refl;
}

as_root-IsRoot : IsRoot as_root
as_root-IsRoot = record {
  setgid_had = λ id w h. rw h refl;
  setgid_stays = λ id w. refl;
  setuid_had = λ id w h. rw h refl;
  setuid_sets = λ id w h. rw h refl;
}

main-running_example :
    (s : Settings) × (bound : ℕ) × (main c_library arena quiet_network as_root 0
      ≡ some (
          running s (
            after_ids as_root
              (id_or_root (c_library.getgrnam (codes "www")))
              (id_or_root (c_library.getpwnam (codes "web")))
              bound)))
    × AllBoundFrom (map described_by (port_file ∷ [])) s.serverhead
    × (as_root.getuid (
          after_ids as_root
            (id_or_root (c_library.getgrnam (codes "www")))
            (id_or_root (c_library.getpwnam (codes "web")))
            bound)
        ≡ id_or_root (c_library.getpwnam (codes "web")))
main-running_example =
    main-running c_library c_library-IsStandard arena refl quiet_network quiet_network-IsWilling
      as_root quiet_network-IsApart as_root-IsRoot (port_file ∷ []) (codes "web") (codes "www") 0
      main_file-IsFileOf (port_file-IsPortFile, tt) (refl, tt) user-IsValue group-IsValue refl
