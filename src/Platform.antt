-- ===== src/Platform.antt =====
-- What the handlers call outside the repository: the C library and OpenSSL, as a parameter. Nothing
-- is assumed of these calls, unless a theorem names it.
use sillyweb.Base.{ℕ, List, Option, Bytes, Bool, ℤ}

-- A result of `read` or `recv`: the number returned, and the bytes that were put into the array.
pub record Received : Type 0 where
  pub count : ℤ
  pub bytes : Bytes

-- What `poll` reports of a descriptor.
pub record Revents : Type 0 where
  -- POLLERR, POLLHUP or POLLNVAL
  pub failed : Bool
  pub readable : Bool
  pub writable : Bool

pub record Platform : Type 1 where
  -- the state of everything outside the process
  pub World : Type 0
  pub send : ℕ → Bytes → World → ℤ × World
  pub recv : ℕ → ℕ → World → Received × World
  pub ssl_write : ℕ → Bytes → World → ℤ × World
  pub ssl_read : ℕ → ℕ → World → Received × World
  pub ssl_free : ℕ → World → World
  pub open_file : Bytes → World → ℤ × World
  pub read : ℤ → ℕ → World → Received × World
  -- `write` from the memory that begins with a `buffer_t`, as `plain_transfer_recv` calls it
  pub write_struct : ℤ → ℕ → World → ℤ × World
  -- `lseek` to the end and back; the offset of the end
  pub file_size : ℤ → World → ℤ × World
  pub close : ℤ → World → World
  pub realpath : Bytes → World → Option Bytes
  pub is_file : Bytes → World → Bool
  pub is_dir : Bytes → World → Bool
  -- `st_size` and `st_mtime` after `stat`, which may be left over if it fails
  pub stat : Bytes → World → ℤ × ℕ
  -- the names that `readdir` gives, or `none` for an `opendir` of NULL
  pub list_dir : Bytes → World → Option (List Bytes)
  -- `ctime`, for the time zone of the process
  pub ctime : ℕ → Bytes
  pub time : World → ℕ
  -- `basename`, and what it leaves of the text that it is given
  pub basename : Bytes → Bytes
  pub after_basename : Bytes → Bytes
  -- `poll` of descriptors, at least one: the result, and the report of the first descriptor
  pub poll : List ℕ → World → (ℤ × Revents) × World
