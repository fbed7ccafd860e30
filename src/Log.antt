-- ===== src/Log.antt =====
-- log.c: the line that `llog` puts together in an array of 512 bytes. What it does with the line is
-- in Log/Output.antt; the model of a request only asks whether it fits.
pub mod Fits
pub mod Output
pub mod Lines
pub mod Heartbeats
use sillyweb.Base.{
  ℕ, ◌+◌, ◌<◌, ◌≤◌, ◌≡◌, Bool, true, false, ◌++◌, Option, none, some, length, take, ltb,
  if◌then◌else◌, Bytes, codes, c_str, arith, length-append, length-take,
}
use sillyweb.Platform.{Platform}
use sillyweb.Util.{filter_nonprintables, sctime}
use sillyweb.Client.{Client}
use sillyweb.Service.{Vhost}

-- "%s" of a pointer; the C library of the target prints NULL as "(null)".
abbrev pub shown : Option Bytes → Bytes
shown none = codes "(null)"
shown (some text) = text

-- The message as `vsnprintf` leaves it in `buffer1`, cut, and filtered.
abbrev pub log_message : Bytes → Bytes
log_message message = c_str (filter_nonprintables (take 510 message) 512 b'.')

module _ (os : Platform) where
  open os use {World}

  -- The line of a message with no client.
  unfoldable pub service_line : Bytes → World → Bytes
  service_line message w =
      codes "SERVICE - ["
      ++ (sctime os 0 w ++ (codes "] - " ++ (log_message message ++ codes "\n")))

  -- The line of a message about a client.
  unfoldable pub client_line : Client → Vhost → Bytes → World → Bytes
  client_line c v message w =
      shown c.ipaddrstr
      ++ (codes " - "
          ++ (shown v.hostname
              ++ (codes " ["
                  ++ (sctime os 0 w ++ (codes "] - " ++ (log_message message ++ codes "\n"))))))

  -- `llog(NULL, …)`: whether the line and its NUL fit into `buffer2`.
  unfoldable pub llog_service : Bytes → World → Bool
  llog_service message w = ltb (length (service_line message w)) 512

  -- `llog(client, …)`, which reads `client->vhost->hostname`.
  unfoldable pub llog_client : Client → Bytes → World → Bool
  llog_client c message w = elim c.vhost [
    | none ↦ false
    | some v ↦ ltb (length (client_line c v message w)) 512
  ]
