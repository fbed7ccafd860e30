-- ===== src/Config/Hosts.antt =====
-- What `config_add_vhost` adds to the list of virtual hosts.
use mathlib.Core.Path.{subst}
use sillyweb.Base.{
  ◌≡◌, ◌⊎◌, refl, sym, ap, ◌∙◌, inl, inr, Bool, true, false, ◌&&◌, [], ◌∷◌, ◌++◌, some, ◌==◌, Bytes,
  Bool-cases, Option-cases,
}
use sillyweb.Memory.{Allocator}
use sillyweb.Service.{Vhost}
use sillyweb.Listening.{add_new_vhost_struct}
use sillyweb.Config.{config_load_callbackable_config}
use sillyweb.Config.Entries.{Pair-cases}
use sillyweb.Config.Handlers.{Library}
use sillyweb.Config.Settings.{
  Settings, sizeof_vhost, zero_vhost, vhost_config, with_certificate, real_document_root,
  real_cgi_bin_root, complete_vhost, config_add_vhost,
}

-- The calls for TLS succeed.
pub record IsCertified (lib : Library) (v : Vhost) : Type 0 where
  pub certificate : lib.use_certificate_file v.sslcert ≡ true
  pub key : lib.use_private_key_file v.sslkey ≡ true
  pub matching : lib.check_private_key v.sslcert v.sslkey ≡ true
  pub callback : lib.set_tlsext_servername_callback ≡ true

-- `read` is what the file gave, and `v` what is made of it: both directories are there, and their
-- paths are resolved.
pub record IsServable (lib : Library) (read v : Vhost) : Type 0 where
  pub root :
      (path : Bytes) × (lib.realpath read.document_root ≡ some path) × (v.document_root ≡ some path)
  pub cgi_root :
      (path : Bytes) × (lib.realpath read.cgi_bin_root ≡ some path) × (v.cgi_bin_root ≡ some path)
  pub certified : ((v.ssl == 0) ≡ true) ⊎ IsCertified lib v

both : (a b : Bool) → (a && b) ≡ true → (a ≡ true) × (b ≡ true)
both true b e = (refl, e)
both false b e = absurd (cc e)

-- A pair that ends in 1.
ends : {u v : Vhost} {b : Bool} → ◌≡◌ {A = Vhost × Bool} (v, b) (u, true) → (v ≡ u) × (b ≡ true)
ends e = (ap (λ (r : Vhost × Bool). r.0) e, ap (λ (r : Vhost × Bool). r.1) e)

module _ (lib : Library) where
  with_certificate-end :
      (v u : Vhost) (b : Bool)
      → with_certificate lib (v, b) ≡ (u, true)
      → (v ≡ u) × (b ≡ true) × (((v.ssl == 0) ≡ true) ⊎ IsCertified lib v)
  with_certificate-end v u b e = elim (Bool-cases (v.ssl == 0)) [
    | inl off ↦ let (same, done) = ends (rw off at e) in (same, done, inl off)
    | inr on ↦
        let (same, done) = ends (rw on at e) in
        let (before, rest) = both b _ done in
        let (certificate, rest1) = both (lib.use_certificate_file v.sslcert) _ rest in
        let (key, rest2) = both (lib.use_private_key_file v.sslkey) _ rest1 in
        let (matching, callback) = both (lib.check_private_key v.sslcert v.sslkey) _ rest2 in
        (
          same,
          before,
          inr (record {
            certificate = certificate;
            key = key;
            matching = matching;
            callback = callback;
          }),
        )
  ]

  real_cgi_bin_root-end :
      (v u : Vhost) (b : Bool)
      → real_cgi_bin_root lib (v, b) ≡ (u, true)
      → (path : Bytes) × (lib.realpath v.cgi_bin_root ≡ some path)
        × (record v { cgi_bin_root = some path } ≡ u)
        × (b ≡ true)
  real_cgi_bin_root-end v u b e = elim (Option-cases (lib.realpath v.cgi_bin_root)) [
    | inl missing ↦ absurd (cc (ends (rw (real_cgi_bin_root, missing) at e)).1)
    | inr (path, found) ↦
        let (same, done) = ends (rw (real_cgi_bin_root, found) at e) in (path, found, same, done)
  ]

  real_document_root-end :
      (v u : Vhost) (b : Bool)
      → real_document_root lib (v, b) ≡ (u, true)
      → (path : Bytes) × (lib.realpath v.document_root ≡ some path)
        × (record v { document_root = some path } ≡ u)
  real_document_root-end v u b e = elim (Option-cases (lib.realpath v.document_root)) [
    | inl missing ↦ absurd (cc (ends (rw (real_document_root, missing) at e)).1)
    | inr (path, found) ↦ (path, found, (ends (rw (real_document_root, found) at e)).0)
  ]

  complete_vhost-IsServable :
      (read v : Vhost) (b : Bool) → complete_vhost lib (read, b) ≡ (v, true) → IsServable lib read v
  unfolding complete_vhost
  complete_vhost-IsServable read v false e = absurd (cc (ends e).1)
  complete_vhost-IsServable read v true e =
      let (v1, b1) = real_document_root lib (read, true) in
      let (v2, b2) = real_cgi_bin_root lib (v1, b1) in
      let (same2, done2, certified) = with_certificate-end v2 v b2 e in
      let (cgi, had_cgi, same1, done1) = real_cgi_bin_root-end v1 v2 b1 (ap (λ b. (v2, b)) done2) in
      let (root, had_root, same0) = real_document_root-end read v1 true (ap (λ b. (v1, b)) done1) in
      let rooted = λ (x : Vhost). x.document_root in
      let cgi_rooted = λ (x : Vhost). x.cgi_bin_root in
      record {
        root = (root, had_root, sym (ap rooted same0 ∙ ap rooted same1 ∙ ap rooted same2));
        cgi_root = (
          cgi,
          ap lib.realpath (ap cgi_rooted same0) ∙ had_cgi,
          sym (ap cgi_rooted same1 ∙ ap cgi_rooted same2),
        );
        certified =
            subst (λ (x : Vhost). ((x.ssl == 0) ≡ true) ⊎ IsCertified lib x) same2 certified;
      }

  complete_vhost-served :
      (r : Vhost × Bool) (v : Vhost)
      → complete_vhost lib r ≡ (v, true)
      → (read : Vhost) × (r ≡ (read, true)) × IsServable lib read v
  unfolding complete_vhost
  complete_vhost-served r v e = elim (Pair-cases r) [
    | inl (read, same) ↦ (read, same, complete_vhost-IsServable read v true (rw same at e))
    | inr (read, same) ↦ absurd (cc (ends (rw (complete_vhost, same) at e)).1)
  ]

  -- With memory at hand, `config_add_vhost` puts one virtual host behind those there were, whatever
  -- it returns, and changes nothing else. Either it returns 0; or the loader has returned 1 for the
  -- file, which it also does for a file that cannot be opened and for one that cannot be read
  -- further, the document root and the CGI root of the new virtual host are what `realpath` gives
  -- for those that the loader has set, and, if "SSL" is not 0, the calls for its certificate and
  -- its key have succeeded.
  pub config_add_vhost-IsServable :
      (mem : Allocator) (vhostfile : Bytes) (ctx : Settings)
      → mem.calloc sizeof_vhost ≡ true
      → (v : Vhost) × ((config_add_vhost lib mem vhostfile ctx).0
          ≡ record ctx { vhost_head = ctx.vhost_head ++ v ∷ [] })
        × (((config_add_vhost lib mem vhostfile ctx).1 ≡ false)
            ⊎ ((read : Vhost) × (config_load_callbackable_config lib.files
                    (lib.junk vhostfile)
                    vhostfile
                    (vhost_config lib (lib.stale_errno vhostfile))
                    zero_vhost
                  ≡ (read, true))
                × IsServable lib read v))
  unfolding config_add_vhost add_new_vhost_struct
  config_add_vhost-IsServable mem vhostfile ctx had =
      rw (config_add_vhost, had) (made.0, refl, served (Bool-cases made.1))
    where
      loaded : Vhost × Bool
      loaded =
          config_load_callbackable_config lib.files (lib.junk vhostfile) vhostfile
            (vhost_config lib (lib.stale_errno vhostfile)) zero_vhost

      made : Vhost × Bool
      made = complete_vhost lib loaded

      served :
          (made.1 ≡ true) ⊎ (made.1 ≡ false)
          → (made.1 ≡ false)
            ⊎ ((read : Vhost) × (loaded ≡ (read, true)) × IsServable lib read made.0)
      served (inl ok) = inr (complete_vhost-served loaded made.0 (ap (λ b. (made.0, b)) ok))
      served (inr failed) = inl failed
