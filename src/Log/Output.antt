-- ===== src/Log/Output.antt =====
-- log.c: `llog` and `llog_heartbeat`, with what they print and write, and the loop of `main` over
-- the heartbeats.
use sillyweb.Base.{
  ℕ, zero, suc, ◌+◌, Option, none, some, ltb, if◌then◌else◌, Bytes, codes, ℤ, is_positive,
  is_nonzero,
}
use sillyweb.Platform.{Platform}
use sillyweb.Client.{Client}
use sillyweb.Log.{service_line, client_line, llog_service, llog_client}

-- The calls of the C library for the log: `open` with O_APPEND and O_CREAT, `write` of so many
-- bytes from the array that holds the line, `printf`, and `sleep`.
pub record Journal (World : Type 0) : Type 0 where
  pub open_log : Bytes → World → ℤ × World
  pub write_log : ℤ → Bytes → ℕ → World → World
  pub print : Bytes → World → World
  pub sleep : ℕ → World → World

-- LAST_LOG_EVENT_TIME, and the world.
pub record LogState (World : Type 0) : Type 0 where
  pub last_event : ℕ
  pub world : World

-- MAX_LOG_HEARTBEAT_SECS
abbrev pub max_log_heartbeat_secs : ℕ
max_log_heartbeat_secs = 15

module _ (os : Platform) (journal : Journal os.World) where
  open os use {World}

  -- The line goes to the log file of the virtual host, if it has the name of one: the descriptor
  -- after it. The length `l` is not initialised.
  unfoldable pub write_line : Option Bytes → ℤ → Bytes → ℕ → World → ℤ × World
  write_line none fd line l w = (fd, w)
  write_line (some name) fd line l w =
      let (fd', w') = if is_positive fd then (fd, w) else journal.open_log name w in
      if is_nonzero fd' then (fd', journal.write_log fd' line l w') else (fd', w')

  -- The time of the event is taken before the line is printed.
  unfoldable pub print_line : Bytes → World → LogState World
  print_line line w = record { last_event = os.time w; world = journal.print line w }

  -- `llog(NULL, …)`. `none` is a fault.
  unfoldable pub llog : Bytes → World → Option (LogState World)
  unfolding print_line
  llog message w =
      if llog_service os message w then some (print_line (service_line os message w) w) else none

  -- `llog(client, …)`, with the descriptor `logfilefd` of its virtual host, and what it is then.
  unfoldable pub llog_to : Client → ℤ → ℕ → Bytes → World → Option (ℤ × LogState World)
  unfolding print_line write_line
  llog_to c logfilefd l message w = elim c.vhost [
    | none ↦ none
    | some v ↦
        if llog_client os c message w
        then (let line = client_line os c v message w in
            let (fd, w') = write_line v.logfilename logfilefd line l w in
            some (fd, print_line line w'))
        else none
  ]

  unfoldable pub llog_heartbeat : LogState World → Option (LogState World)
  unfolding llog
  llog_heartbeat s =
      if ltb (s.last_event + max_log_heartbeat_secs) (os.time s.world)
      then llog (codes "heartbeat!") s.world
      else some s

  -- Rounds of the loop of `main`, `while (SERVICE_DATA.active)`.
  unfoldable pub heartbeat_rounds : ℕ → LogState World → Option (LogState World)
  unfolding llog_heartbeat
  heartbeat_rounds zero s = some s
  heartbeat_rounds (suc n) s =
      elim (llog_heartbeat (record s { world = journal.sleep 5 s.world })) [
        | none ↦ none
        | some s' ↦ heartbeat_rounds n s'
      ]
