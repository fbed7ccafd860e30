-- ===== src/Log/Fits.antt =====
-- When the lines of the log fit into their array.
use sillyweb.Base.{
  ℕ, ◌+◌, ◌-◌, ◌<◌, ◌≤◌, ◌≡◌, true, ◌++◌, some, length, take, Bytes, codes, arith, refl,
  length-append, length-take, length-c_str, ◌==◌, if◌then◌else◌,
}
use sillyweb.Platform.{Platform}
use sillyweb.Util.{is_print, sctime, filter_nonprintables}
use sillyweb.Util.Printable.{filter_nonprintables-is_print}
use sillyweb.Client.{Client}
use sillyweb.Service.{Vhost}
use sillyweb.Log.{shown, log_message, service_line, client_line, llog_service, llog_client}

-- `ctime` writes at most 25 bytes.
abbrev pub IsClock : Platform → Type 0
IsClock os = (at : ℕ) → length (os.ctime at) ≤ 25

length-log_message : (message : Bytes) → length (log_message message) ≤ length message
length-log_message message = omega (
  arith,
  (filter_nonprintables-is_print (take 510 message) 512 b'.' (unfold is_print in refl)).0,
  length-take 510 message,
  length-c_str (filter_nonprintables (take 510 message) 512 b'.'),
)

module _ (os : Platform) (clock : IsClock os) where
  open os use {World}

  length-sctime : (at : ℕ) (w : World) → length (sctime os at w) ≤ 24
  unfolding sctime
  length-sctime at w =
      let t = if at == 0 then os.time w else at in
      omega (arith, clock t, length-take (length (os.ctime t) - 1) (os.ctime t))

  -- A message of at most 471 bytes fits.
  pub llog_service_fits :
      (message : Bytes) (w : World) → length message ≤ 471 → llog_service os message w ≡ true
  unfolding llog_service service_line
  llog_service_fits message w h =
      let m = log_message message in
      let size : length (service_line os message w) < 512 = omega (
        arith,
        length-sctime 0 w,
        length-log_message message,
        length-append (sctime os 0 w) (codes "] - " ++ (m ++ codes "\n")),
        length-append m (codes "\n"),
      ) in
      ground (arith, size)

  -- A message of at most 10 bytes fits with an address and a host name of at most 440 together.
  pub llog_client_fits :
      (c : Client) (v : Vhost) (message : Bytes) (w : World)
      → c.vhost ≡ some v
      → length (shown c.ipaddrstr) + length (shown v.hostname) ≤ 440
      → length message ≤ 10
      → llog_client os c message w ≡ true
  unfolding llog_client client_line
  llog_client_fits c v message w e h k =
      let m = log_message message in
      let t = sctime os 0 w in
      let size : length (client_line os c v message w) < 512 = omega (
        arith,
        length-sctime 0 w,
        length-log_message message,
        length-append (shown c.ipaddrstr) (
            codes " - "
            ++ (shown v.hostname ++ (codes " [" ++ (t ++ (codes "] - " ++ (m ++ codes "\n")))))),
        length-append (shown v.hostname) (codes " [" ++ (t ++ (codes "] - " ++ (m ++ codes "\n")))),
        length-append t (codes "] - " ++ (m ++ codes "\n")),
        length-append m (codes "\n"),
      ) in
      rw (llog_client, e) (ground (arith, size))
