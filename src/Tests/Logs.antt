-- ===== src/Tests/Logs.antt =====
-- The log on a machine whose time goes on only in `sleep`, and which keeps what was printed.
use sillyweb.Base.{
  ℕ, ◌+◌, ◌≡◌, refl, All, true, false, List, [], ◌∷◌, ◌++◌, none, some, length, Bytes, codes, pos,
  arith,
}
use sillyweb.Log.Heartbeats.{IsTicking, IsHeartbeat, heartbeat_rounds-IsHeartbeat}
use sillyweb.Log.Lines.{IsOneLine, IsDated, service_text, llog-IsOneLine}
use sillyweb.Log.Output.{Journal, LogState, llog, heartbeat_rounds}
use sillyweb.Platform.{Platform}

-- The time, and the lines.
abbrev machine : Platform
machine = record {
  World = ℕ × List Bytes;
  send = λ sock text w. (pos (length text), w);
  recv = λ sock n w. (record { count = pos 0; bytes = [] }, w);
  ssl_write = λ ctx text w. (pos (length text), w);
  ssl_read = λ ctx n w. (record { count = pos 0; bytes = [] }, w);
  ssl_free = λ ctx w. w;
  open_file = λ path w. (pos 5, w);
  read = λ fd n w. (record { count = pos 0; bytes = [] }, w);
  write_struct = λ fd n w. (pos n, w);
  file_size = λ fd w. (pos 0, w);
  close = λ fd w. w;
  realpath = λ path w. some path;
  is_file = λ path w. true;
  is_dir = λ path w. false;
  stat = λ path w. (pos 0, 0);
  list_dir = λ path w. none;
  ctime = λ at. codes "Thu Jan  1 00:00:00 1970\n";
  time = λ w. w.0;
  basename = λ path. path;
  after_basename = λ path. path;
  poll = λ fds w. ((pos 0, record { failed = false; readable = false; writable = false }), w);
}

abbrev paper : Journal machine.World
paper = record {
  open_log = λ path w. (pos 6, w);
  write_log = λ fd line l w. w;
  print = λ line w. (w.0, w.1 ++ line ∷ []);
  sleep = λ n w. (w.0 + n, w.1);
}

machine-IsDated : IsDated machine
machine-IsDated = record {
  date = λ at. codes "Thu Jan  1 00:00:00 1970";
  is_date = λ at. refl;
  short = λ at. omega arith;
  one_line = λ at. omega arith;
}

llog-IsOneLine_example :
    (line : Bytes) × (llog machine paper (codes "GET\n[/x] 200") (9, [])
      ≡ some (record { last_event = 9; world = (9, (line ++ codes "\n") ∷ []) }))
    × IsOneLine line
    × (line ≡ service_text machine machine-IsDated (codes "GET\n[/x] 200") (9, []))
llog-IsOneLine_example =
    llog-IsOneLine machine machine-IsDated paper (codes "GET\n[/x] 200") (9, []) (omega arith)

abbrev printed : machine.World → List Bytes
printed w = w.1

machine-IsTicking : IsTicking machine paper printed
machine-IsTicking = record {
  sleeps = λ n w. refl;
  sleep_quiet = λ n w. refl;
  print_at_once = λ line w. refl;
  prints = λ line w. refl;
}

abbrev started : LogState machine.World
started = record { last_event = 9; world = (9, []) }

heartbeat_rounds-IsHeartbeat_example :
    (s' : LogState machine.World) × (lines : List Bytes) × (heartbeat_rounds machine paper 12
        started
      ≡ some s')
    × (s'.world.0 ≡ 69)
    × (printed s'.world ≡ [] ++ lines)
    × (length lines ≡ 3)
    × All (IsHeartbeat machine) lines
heartbeat_rounds-IsHeartbeat_example =
    heartbeat_rounds-IsHeartbeat machine paper printed machine-IsTicking (λ at. omega arith) 3
      started refl
