-- ===== src/Start/Running.antt =====
-- What `main` has done when the threads start.
use sillyweb.Base.{ℕ, ◌≡◌, refl, true, List, [], ◌∷◌, map, All, some, Bytes, codes, pos, ap, ◌∙◌}
use sillyweb.Memory.{Allocator}
use sillyweb.Config.Handlers.{Library, id_or_root}
use sillyweb.Config.Settings.{Settings, sizeof_server}
use sillyweb.Config.Ports.{
  IsStandard, IsValue, IsFileOf, PortFile, IsPortFile, main_entries, described_by,
}
use sillyweb.Config.Servers.{configured, config_load_config-configured}
use sillyweb.Listening.{Network, inet}
use sillyweb.Listening.Bindings.{
  AllBoundFrom, HasAddress, IsWilling, IsApart, do_server_port_bindings-bound,
}
use sillyweb.Start.{Privileges, running, no_settings, drop_privileges, start_with, main}

-- What root may do: set the group, and stay root, and set the user, and be that user.
pub record IsRoot {W : Type 0} (priv : Privileges W) : Type 0 where
  pub setgid_had : (id : ℕ) (w : W) → priv.getuid w ≡ 0 → (priv.setgid id w).0 ≡ pos 0
  pub setgid_stays : (id : ℕ) (w : W) → priv.getuid (priv.setgid id w).1 ≡ priv.getuid w
  pub setuid_had : (id : ℕ) (w : W) → priv.getuid w ≡ 0 → (priv.setuid id w).0 ≡ pos 0
  pub setuid_sets : (id : ℕ) (w : W) → priv.getuid w ≡ 0 → priv.getuid (priv.setuid id w).1 ≡ id

-- The world after the ids were set, the group first.
abbrev pub after_ids : {W : Type 0} → Privileges W → ℕ → ℕ → W → W
after_ids priv gid uid w = (priv.setuid uid (priv.setgid gid w).1).1

module _ {W : Type 0} (lib : Library) (standard : IsStandard lib) (mem : Allocator)
    (had : mem.calloc sizeof_server ≡ true) (net : Network W) (willing : IsWilling net)
    (priv : Privileges W) (apart : IsApart net priv.getuid) (root : IsRoot priv) where
  drop_privileges-root :
      (s : Settings) (w : W)
      → priv.getuid w ≡ 0
      → drop_privileges priv s w ≡ running s (after_ids priv s.servicesetgid s.servicesetuid w)
  unfolding drop_privileges
  drop_privileges-root s w h =
      rw
        (
          h,
          root.setgid_had s.servicesetgid w h,
          root.setuid_had s.servicesetuid (priv.setgid s.servicesetgid w).1
              (root.setgid_stays s.servicesetgid w ∙ h),
        )
        refl

  addresses_had :
      (fs : List PortFile)
      → All (λ (f : PortFile). (net.inet_pton inet f.content.address).0 ≡ pos 1) fs
      → All (HasAddress net) (map described_by fs)
  addresses_had [] h = tt
  addresses_had (f ∷ fs) (h, hs) = ((f.content.address, refl, h), addresses_had fs hs)

  -- With memory at hand, for a main file that opens and has exactly a line "PORT" for each port
  -- file, then "UID" and "GID", and for port files that open and have exactly the lines
  -- "BINDADDRESS", "PORT" and "SSL", in this order, with numbers below 2 ^ 31 and an IPv4 address,
  -- while `errno` is not EINVAL when a port file is read: if no call for a socket fails or changes
  -- the user of the process, and the process is root at first, which may set its ids, then `main`
  -- starts the threads. Each server of the files is in the list, in their order, with a descriptor
  -- and with its port modulo 2 ^ 16. After that the group and then the user of the process were set
  -- to those of the main file, and the process is that user, which is root for a name that is
  -- unknown.
  pub main-running :
      (fs : List PortFile) (user group : Bytes) (w : W)
      → IsFileOf lib (codes "config/server.cfg") (main_entries fs user group)
      → All (IsPortFile lib) fs
      → All (λ (f : PortFile). (net.inet_pton inet f.content.address).0 ≡ pos 1) fs
      → IsValue user
      → IsValue group
      → priv.getuid w ≡ 0
      → (s : Settings) × (bound : W) × (main lib mem net priv w
          ≡ some (
              running s (
                after_ids priv
                  (id_or_root (lib.getgrnam group))
                  (id_or_root (lib.getpwnam user))
                  bound)))
        × AllBoundFrom (map described_by fs) s.serverhead
        × (priv.getuid (
              after_ids priv
                (id_or_root (lib.getgrnam group))
                (id_or_root (lib.getpwnam user))
                bound)
            ≡ id_or_root (lib.getpwnam user))
  unfolding main start_with
  main-running fs user group w held files addresses u g is_root =
      let loaded =
        config_load_config-configured lib standard mem had user group (codes "config/server.cfg") fs
          no_settings held files u g in
      let (servers, bound, done, all, kept) =
        do_server_port_bindings-bound net willing priv.getuid apart (map described_by fs) w
          (addresses_had fs addresses) in
      let still : priv.getuid bound ≡ 0 = kept ∙ is_root in
      let gid = id_or_root (lib.getgrnam group) in
      let s : Settings = record (configured lib standard mem had user group fs no_settings) {
        serverhead = servers;
      } in
      (
        s,
        bound,
        ap (λ r. start_with net priv r w) loaded
            ∙ (rw (start_with, done) (ap some (drop_privileges-root s bound still))),
        all,
        root.setuid_sets (id_or_root (lib.getpwnam user)) (priv.setgid gid bound).1
            (root.setgid_stays gid bound ∙ still),
      )
