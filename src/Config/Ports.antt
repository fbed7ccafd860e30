-- ===== src/Config/Ports.antt =====
-- Files that describe servers, and a main file that names them, as lines of entries.
use sillyweb.Base.{
  ℕ, ◌^◌, ◌≤◌, ◌<◌, ◌≡◌, ◌≢◌, true, false, List, [], ◌∷◌, length, All, some, ◌==◌, if◌then◌else◌,
  Bytes, codes, IsText, pos, arith, is_nonzero, decimal, read_digits, IsDigit, decimal-IsDigit,
  decimal-positive, length-decimal,
}
use sillyweb.Service.{Server, tcp, ssl}
use sillyweb.Config.Entries.{Entry, Fits, IsWhole, render_all}
use sillyweb.Config.Handlers.{Library}

-- What the C library does with decimal numbers that fit an `int`, and with memory at hand.
pub record IsStandard (lib : Library) : Type 0 where
  pub strtol_reads :
      (s : Bytes)
      → All IsDigit s
      → 1 ≤ length s
      → read_digits 0 s < 2 ^ 31
      → lib.strtol s ≡ read_digits 0 s
  pub strtol_valid : (s : Bytes) → All IsDigit s → 1 ≤ length s → lib.is_invalid s ≡ false
  pub strdup_copies : (s : Bytes) → lib.strdup s ≡ some s

-- A value that can stand in a line.
pub record IsValue (s : Bytes) : Type 0 where
  pub positive : 1 ≤ length s
  pub short : length s ≤ 511
  pub text : IsText s
  pub chars : All (λ c. (c ≢ b'\n') × (c ≢ b'\r')) s

digits-IsText : (s : Bytes) → All IsDigit s → IsText s
digits-IsText [] h = tt
digits-IsText (c ∷ s) (h, hs) = (omega arith, digits-IsText s hs)

digits-chars : (s : Bytes) → All IsDigit s → All (λ c. (c ≢ b'\n') × (c ≢ b'\r')) s
digits-chars [] h = tt
digits-chars (c ∷ s) (h, hs) = (((λ e. omega arith), (λ e. omega arith)), digits-chars s hs)

decimal-IsValue : (n : ℕ) → n < 2 ^ 31 → IsValue (decimal n)
decimal-IsValue n h = record {
  positive = decimal-positive n;
  short = omega (arith, length-decimal 9 n (omega arith));
  text = digits-IsText (decimal n) (decimal-IsDigit n);
  chars = digits-chars (decimal n) (decimal-IsDigit n);
}

-- What a port file describes.
pub record Port : Type 0 where
  pub address : Bytes
  pub port : ℕ
  pub ssl : ℕ

pub record IsPort (d : Port) : Type 0 where
  pub address_value : IsValue d.address
  pub port_int : d.port < 2 ^ 31
  pub ssl_int : d.ssl < 2 ^ 31

-- The lines of the port file.
abbrev pub port_entries : Port → List Entry
port_entries d =
    record { name = codes "BINDADDRESS"; value = d.address }
    ∷ record { name = codes "PORT"; value = decimal d.port }
    ∷ record { name = codes "SSL"; value = decimal d.ssl }
    ∷ []

-- The server that it describes, which is not bound yet.
abbrev pub described : Port → Server
described d = record {
  port = d.port;
  server_sock = pos 0;
  bind_address = some d.address;
  sin_port = 0;
  ssl = d.ssl;
  transport = if d.ssl == 0 then tcp else ssl;
}

pub value-Fits :
    (name value : Bytes)
    → All (λ c. c ≢ b'=') name
    → length name ≤ 63
    → IsValue value
    → Fits (record { name = name; value = value })
value-Fits name value h k v = record {
  name_chars = h;
  name_length = k;
  value_chars = v.chars;
  value_length = v.short;
}

pub value-IsWhole :
    (name value : Bytes)
    → 1 ≤ length name
    → IsText name
    → IsValue value
    → IsWhole (record { name = name; value = value })
value-IsWhole name value h k v = record {
  name_positive = h;
  value_positive = v.positive;
  name_text = k;
  value_text = v.text;
}

pub port_entries-Fits : (d : Port) → IsPort d → All Fits (port_entries d)
port_entries-Fits d h = (
  value-Fits (codes "BINDADDRESS") d.address (ground arith) (omega arith) h.address_value,
  (
    value-Fits (codes "PORT") (decimal d.port) (ground arith) (omega arith)
        (decimal-IsValue d.port h.port_int),
    (
      value-Fits (codes "SSL") (decimal d.ssl) (ground arith) (omega arith)
          (decimal-IsValue d.ssl h.ssl_int),
      tt,
    ),
  ),
)

pub port_entries-IsWhole : (d : Port) → IsPort d → All IsWhole (port_entries d)
port_entries-IsWhole d h = (
  value-IsWhole (codes "BINDADDRESS") d.address (omega arith) (ground arith) h.address_value,
  (
    value-IsWhole (codes "PORT") (decimal d.port) (omega arith) (ground arith)
        (decimal-IsValue d.port h.port_int),
    (
      value-IsWhole (codes "SSL") (decimal d.ssl) (omega arith) (ground arith)
          (decimal-IsValue d.ssl h.ssl_int),
      tt,
    ),
  ),
)

-- The file opens, and its bytes are the lines.
pub record IsFileOf (lib : Library) (path : Bytes) (es : List Entry) : Type 0 where
  pub opens : is_nonzero (lib.files path).fd ≡ true
  pub holds : (lib.files path).bytes ≡ render_all es

-- A port file, and what is in it.
pub record PortFile : Type 0 where
  pub path : Bytes
  pub content : Port

pub record IsPortFile (lib : Library) (f : PortFile) : Type 0 where
  pub path_value : IsValue f.path
  pub file : IsFileOf lib f.path (port_entries f.content)
  pub is_port : IsPort f.content
  -- `errno` is not EINVAL from an earlier call
  pub no_error : lib.stale_errno f.path ≡ false

-- The lines of the main file: the port files, then the user and the group.
abbrev pub main_entries : List PortFile → Bytes → Bytes → List Entry
main_entries [] user group =
    record { name = codes "UID"; value = user } ∷ record { name = codes "GID"; value = group } ∷ []
main_entries (f ∷ fs) user group =
    record { name = codes "PORT"; value = f.path } ∷ main_entries fs user group

abbrev pub described_by : PortFile → Server
described_by f = described f.content
