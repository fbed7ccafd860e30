-- ===== src/Tests/Env.antt =====
-- An allocator that always has memory, a network that takes every text, and a client.
use mathlib.Core.Path.{◌≡◌, refl, sym, ap, ◌∙◌}
use sillyweb.Base.{
  ℕ, zero, suc, ◌≤◌, true, false, [], ◌∷◌, ◌++◌, none, some, length, take, drop, Bytes, codes, pos,
  arith, length-take,
}
use sillyweb.Memory.{Allocator, IsAmple, block}
use sillyweb.Buffer.{Buffer}
use sillyweb.Platform.{Platform}
use sillyweb.Service.{Vhost, tcp, plain}
use sillyweb.Client.{Client, no_flags}
use sillyweb.Response.Stream.{IsStream}
use sillyweb.Transfer.Pump.{IsLink}

-- A block cut, or filled up with zeros, to a size.
unfoldable pub resize : ℕ → Bytes → Bytes
resize zero s = []
resize (suc n) [] = 0 ∷ resize n []
resize (suc n) (c ∷ cs) = c ∷ resize n cs

pub length-resize : (n : ℕ) (s : Bytes) → length (resize n s) ≡ n
unfolding resize
length-resize zero s = refl
length-resize (suc n) [] = ap suc (length-resize n [])
length-resize (suc n) (c ∷ cs) = ap suc (length-resize n cs)

unfoldable pub resize-keeps :
    (n : ℕ) (s : Bytes) (k : ℕ) → k ≤ n → k ≤ length s → take k (resize n s) ≡ take k s
unfolding resize
resize-keeps n s zero h l = refl
resize-keeps zero s (suc k) h l = absurd (omega arith)
resize-keeps (suc n) [] (suc k) h l = absurd (omega arith)
resize-keeps (suc n) (c ∷ cs) (suc k) h l =
    ap (◌∷◌ c) (resize-keeps n cs k (omega arith) (omega arith))

pub some_inj {ℓ} : {A : Type ℓ} {a b : A} → some a ≡ some b → a ≡ b
some_inj e = cc e

abbrev pub arena : Allocator
arena = record {
  realloc = λ p n. some (resize n (block p));
  calloc = λ n. true;
  malloc = λ n. true;
  realloc_size = λ p n b e. ap length (sym (some_inj e)) ∙ length-resize n (block p);
  realloc_keeps = λ p n b k e h l. ap (take k) (sym (some_inj e)) ∙ resize-keeps n (block p) k h l;
}

pub arena-IsAmple : IsAmple arena
arena-IsAmple = record {
  realloc_ample = λ p n e. cc e;
  calloc_ample = λ n. refl;
  malloc_ample = λ n. refl;
}

-- The world is what is left of the file that is open, and what the client was sent. A socket takes
-- `cut text` of a text at once.
abbrev pub wire : (Bytes → Bytes) → Platform
wire cut = record {
  World = Bytes × Bytes;
  send = λ sock text w. (pos (length (cut text)), (w.0, w.1 ++ cut text));
  recv = λ sock n w. (record { count = pos 0; bytes = [] }, w);
  ssl_write = λ ctx text w. (pos (length (cut text)), (w.0, w.1 ++ cut text));
  ssl_read = λ ctx n w. (record { count = pos 0; bytes = [] }, w);
  ssl_free = λ ctx w. w;
  open_file = λ path w. (pos 5, w);
  read = λ fd n w.
      (record { count = pos (length (take n w.0)); bytes = take n w.0 }, (drop n w.0, w.1));
  write_struct = λ fd n w. (pos n, w);
  file_size = λ fd w. (pos (length w.0), w);
  close = λ fd w. w;
  realpath = λ path w. some path;
  is_file = λ path w. true;
  is_dir = λ path w. false;
  stat = λ path w. (pos 12, 1);
  list_dir = λ path w. some (codes "a.txt" ∷ []);
  ctime = λ at. codes "Thu Jan  1 00:00:00 1970\n";
  time = λ w. 0;
  basename = λ path. path;
  after_basename = λ path. path;
  poll = λ fds w. ((pos 1, record { failed = false; readable = false; writable = true }), w);
}

abbrev pub sent : Bytes × Bytes → Bytes
sent w = w.1

pub wire-IsLink : (limit : ℕ) → IsLink (wire (take limit)) sent
wire-IsLink limit = record {
  read_counts = λ fd n w. refl;
  read_fits = λ fd n w. omega (arith, length-take n w.0);
  read_quiet = λ fd n w. refl;
  send_takes = λ sock text w. taken text w;
  ssl_write_takes = λ ctx text w. taken text w;
}
  where
    taken :
        (text : Bytes) (w : Bytes × Bytes)
        → (k : ℕ) × (pos (length (take limit text)) ≡ pos k)
          × (k ≤ length text)
          × (w.1 ++ take limit text ≡ w.1 ++ take k text)
    taken text w = (
      length (take limit text),
      refl,
      omega (arith, length-take limit text),
      ap (λ t. w.1 ++ t) (sym (retake limit text)),
    )
      where
        retake : (n : ℕ) (s : Bytes) → take (length (take n s)) s ≡ take n s
        retake zero s = refl
        retake (suc n) [] = refl
        retake (suc n) (c ∷ s) = ap (◌∷◌ c) (retake n s)

pub wire-IsStream : IsStream (wire (λ text. text)) sent
wire-IsStream = record { send_takes = λ sock text w. refl; ssl_write_takes = λ ctx text w. refl }

abbrev pub site : Vhost
site = record {
  document_root = some (codes "/srv");
  cgi_bin_root = some (codes "/cgi");
  admin_email = none;
  hostname = some (codes "localhost");
  logfilename = none;
  ssl = 0;
  sslcert = none;
  sslkey = none;
}

abbrev pub no_buffer : Buffer
no_buffer = record { buffer = none; len = 0 }

abbrev pub filled : Bytes → Buffer
filled bytes = record { buffer = some bytes; len = length bytes }

-- A client with a request in its input buffer.
abbrev pub guest : Bytes → Client
guest request = record {
  active = true;
  thread_pool_id = 0;
  sock = 4;
  flags = no_flags;
  inputbuffer = filled request;
  outputbuffer = no_buffer;
  inbound_headers = [];
  outbound_headers = [];
  uri = none;
  query = none;
  localpath = none;
  cleanlocalpath = none;
  filename = none;
  pump_fd = pos 0;
  request_complete = true;
  is_cgi_request = false;
  response_complete = false;
  request_parsed = false;
  transfer_in_progress = false;
  transfer_completed = false;
  result_code = 0;
  vhost = some site;
  method = none;
  server = record {
    port = 80;
    server_sock = pos 3;
    bind_address = none;
    sin_port = 80;
    ssl = 0;
    transport = tcp;
  };
  transfer = plain;
  sslctx = 0;
  client_connected = 0;
  ipaddrstr = some (codes "10.0.0.1");
  srcport = 4000;
}
