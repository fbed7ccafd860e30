-- ===== src/Start.antt =====
-- main.c: `main`, up to the start of the threads; Start/Threads.antt has the rest of it. The
-- results of the calls for mutexes, for OpenSSL and for `pthread_attr_t` are dropped by the source,
-- and left out.
pub mod Running
pub mod Threads
use sillyweb.Base.{
  ℕ, Bool, true, false, ◌==◌, List, [], Option, none, some, if◌then◌else◌, Bytes, codes, ℤ, negsuc,
  is_nonzero,
}
use sillyweb.Memory.{Allocator}
use sillyweb.Service.{Server}
use sillyweb.Config.Handlers.{Library}
use sillyweb.Config.Settings.{Settings, config_load_config}
use sillyweb.Listening.{Network, do_server_port_bindings}

-- The calls of the C library for the ids of the process.
pub record Privileges (W : Type 0) : Type 0 where
  pub getuid : W → ℕ
  pub setgid : ℕ → W → ℤ × W
  pub setuid : ℕ → W → ℤ × W

-- `exit` with a status, or the threads are started.
pub data Started (W : Type 0) : Type 0 where
  exited : ℤ → W → Started W
  running : Settings → W → Started W

-- After `memset`.
abbrev pub no_settings : Settings
no_settings = record { serverhead = []; vhost_head = []; servicesetuid = 0; servicesetgid = 0 }

module _ {W : Type 0} (priv : Privileges W) where
  -- The ids of the process are set if it runs as root.
  unfoldable pub drop_privileges : Settings → W → Started W
  drop_privileges s w =
      if priv.getuid w == 0
      then (let (gid, w1) = priv.setgid s.servicesetgid w in
          let (uid, w2) = priv.setuid s.servicesetuid w1 in
          if is_nonzero gid
          then exited (negsuc 2) w1
          else if is_nonzero uid
          then exited (negsuc 2) w2
          else running s w2)
      else running s w

-- What follows `config_load_config`. `none` is a fault.
unfoldable pub start_with :
    {W : Type 0} → Network W → Privileges W → Settings × Bool → W → Option (Started W)
unfolding drop_privileges do_server_port_bindings
start_with net priv (s, false) w = some (exited (negsuc 0) w)
start_with net priv (s, true) w = elim (do_server_port_bindings net s.serverhead w) [
  | none ↦ none
  | some (servers, w') ↦ some (drop_privileges priv (record s { serverhead = servers }) w')
]

-- `main` from `config_load_config` on.
unfoldable pub main :
    {W : Type 0} → Library → Allocator → Network W → Privileges W → W → Option (Started W)
unfolding start_with config_load_config
main lib mem net priv w =
    start_with net priv (config_load_config lib mem (codes "config/server.cfg") no_settings) w
