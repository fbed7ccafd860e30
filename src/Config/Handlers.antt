-- ===== src/Config/Handlers.antt =====
-- config.c: the callbacks that set a variable. `varctx` is the assignment to the variable, or
-- `none` for NULL.
use sillyweb.Base.{ℕ, Bool, true, false, not, ◌||◌, Option, none, some, Bytes}
use sillyweb.Config.{Opened}

-- What the callbacks call outside the repository, in the C library and OpenSSL.
pub record Library : Type 0 where
  -- the file system, and what the arrays of the loader hold at first
  pub files : Bytes → Opened
  pub junk : Bytes → Bytes × Bytes
  -- the low 32 bits of the result for base 10, and whether the call sets `errno` to EINVAL
  pub strtol : Bytes → ℕ
  pub strtoul : Bytes → ℕ
  pub is_invalid : Bytes → Bool
  -- whether `errno` is EINVAL already while the file of that name is read: `strtol` does not clear
  -- it
  pub stale_errno : Bytes → Bool
  pub strdup : Bytes → Option Bytes
  -- the id, or `none` for a NULL entry
  pub getgrnam : Bytes → Option ℕ
  pub getpwnam : Bytes → Option ℕ
  -- `none` is NULL
  pub realpath : Option Bytes → Option Bytes
  -- whether the calls for the TLS context of a virtual host succeed
  pub use_certificate_file : Option Bytes → Bool
  pub use_private_key_file : Option Bytes → Bool
  pub check_private_key : Option Bytes → Option Bytes → Bool
  pub set_tlsext_servername_callback : Bool

abbrev is_had : Option Bytes → Bool
is_had none = false
is_had (some b) = true

-- An id, or 0 for an unknown name.
abbrev pub id_or_root : Option ℕ → ℕ
id_or_root none = 0
id_or_root (some id) = id

-- The handlers of numbers test `errno` behind the call, and `stale` says whether it was EINVAL
-- before.
module _ {ℓ} {S : Type ℓ} (lib : Library) where
  unfoldable pub config_set_uint_handler : Bool → Option (ℕ → S → S) → Bytes → S → S × Bool
  config_set_uint_handler stale none arg s = (s, true)
  config_set_uint_handler stale (some set) arg s =
      (set (lib.strtoul arg) s, not (stale || lib.is_invalid arg))

  unfoldable pub config_set_int_handler : Bool → Option (ℕ → S → S) → Bytes → S → S × Bool
  config_set_int_handler stale none arg s = (s, true)
  config_set_int_handler stale (some set) arg s =
      (set (lib.strtol arg) s, not (stale || lib.is_invalid arg))

  unfoldable pub config_set_string_handler : Option (Option Bytes → S → S) → Bytes → S → S × Bool
  config_set_string_handler none arg s = (s, false)
  config_set_string_handler (some set) arg s = (set (lib.strdup arg) s, is_had (lib.strdup arg))

  -- It prints `arg`.
  unfoldable pub config_dummy_handler : Bytes → S → S × Bool
  config_dummy_handler arg s = (s, true)

  unfoldable pub config_set_gid : (ℕ → S → S) → Bytes → S → S × Bool
  config_set_gid set arg s = (set (id_or_root (lib.getgrnam arg)) s, true)

  unfoldable pub config_set_uid : (ℕ → S → S) → Bytes → S → S × Bool
  config_set_uid set arg s = (set (id_or_root (lib.getpwnam arg)) s, true)
