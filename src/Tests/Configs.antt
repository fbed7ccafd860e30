-- ===== src/Tests/Configs.antt =====
-- The loader of config.c on concrete files.
use sillyweb.Base.{
  ◌≡◌, ◌≢◌, ◌++◌, refl, inl, true, false, List, [], ◌∷◌, ◌≤◌, All, length, Bytes, codes, same, pos,
  arith, IsText, c_str,
}
use sillyweb.Config.{
  ConfigCallback, Opened, Scanner, in_name, call_callback, start, step,
  config_load_callbackable_config,
}
use sillyweb.Config.Entries.{
  Entry, Fits, IsWhole, render_all, run_entries, run_stale, config_load-run_entries,
  config_load-run_stale,
}
use sillyweb.Config.Limits.{InBounds, Visits, here, next, Visits-InBounds, config_load-too_long}

-- The callbacks note what they get; the one of "port" accepts only "80".
abbrev callbacks : List (ConfigCallback (List Bytes))
callbacks =
    record { varname = codes "root"; callback = λ v s. (s ++ v ∷ [], true) }
    ∷ record { varname = codes "port"; callback = λ v s. (s ++ v ∷ [], same v (codes "80")) }
    ∷ []

abbrev two_entries : List Entry
two_entries =
    record { name = codes "root"; value = codes "/srv" }
    ∷ record { name = codes "port"; value = codes "80" }
    ∷ []

-- An entry with no value.
abbrev empty_value : List Entry
empty_value =
    record { name = codes "port"; value = codes "80" }
    ∷ record { name = codes "root"; value = [] }
    ∷ []

abbrev file_of : Bytes → Bytes → Opened
file_of bytes path = record { fd = pos 3; bytes = bytes }

abbrev no_junk : Bytes × Bytes
no_junk = ([], [])

entry-Fits :
    (e : Entry)
    → All (λ c. c ≢ b'=') e.name
    → length e.name ≤ 63
    → All (λ c. (c ≢ b'\n') × (c ≢ b'\r')) e.value
    → length e.value ≤ 511
    → Fits e
entry-Fits e h l k m = record { name_chars = h; name_length = l; value_chars = k; value_length = m }

entry-IsWhole :
    (e : Entry)
    → 1 ≤ length e.name
    → 1 ≤ length e.value
    → IsText e.name
    → IsText e.value
    → IsWhole e
entry-IsWhole e h k t u = record {
  name_positive = h;
  value_positive = k;
  name_text = t;
  value_text = u;
}

two_entries-Fits : All Fits two_entries
two_entries-Fits = (
  entry-Fits _ (omega arith) (omega arith) (omega arith) (omega arith),
  (entry-Fits _ (omega arith) (omega arith) (omega arith) (omega arith), tt),
)

two_entries-IsWhole : All IsWhole two_entries
two_entries-IsWhole = (
  entry-IsWhole _ (omega arith) (omega arith) (omega arith) (omega arith),
  (entry-IsWhole _ (omega arith) (omega arith) (omega arith) (omega arith), tt),
)

empty_value-Fits : All Fits empty_value
empty_value-Fits = (
  entry-Fits _ (omega arith) (omega arith) (omega arith) (omega arith),
  (entry-Fits _ (omega arith) (omega arith) tt (omega arith), tt),
)

config_load-run_entries_example :
    config_load_callbackable_config
      (file_of (render_all two_entries))
      no_junk
      (codes "a.conf")
      callbacks
      []
    ≡ run_entries callbacks two_entries []
config_load-run_entries_example =
    config_load-run_entries (file_of (render_all two_entries)) no_junk (codes "a.conf") callbacks
      two_entries [] refl refl two_entries-Fits two_entries-IsWhole

config_load-run_stale_example :
    config_load_callbackable_config
      (file_of (render_all empty_value))
      no_junk
      (codes "a.conf")
      callbacks
      []
    ≡ run_stale callbacks [] [] empty_value []
config_load-run_stale_example =
    config_load-run_stale (file_of (render_all empty_value)) no_junk (codes "a.conf") callbacks
      empty_value [] refl refl empty_value-Fits

-- The value of the first entry is handed over again.
stale_test : run_stale callbacks [] [] empty_value [] ≡ (codes "80" ∷ codes "80" ∷ [], true)
unfolding run_stale call_callback same c_str
stale_test = refl

abbrev long_name : Bytes
long_name = codes "aaaaaaaaaaaaaaaaaaaaaaaaaaaaaaaaaaaaaaaaaaaaaaaaaaaaaaaaaaaaaaaa"

config_load-too_long_example :
    config_load_callbackable_config
      (file_of (long_name ++ codes "=1\n"))
      no_junk
      (codes "a.conf")
      callbacks
      []
    ≡ ([], false)
config_load-too_long_example =
    config_load-too_long (file_of (long_name ++ codes "=1\n")) no_junk (codes "a.conf") callbacks []
      long_name [] (codes "=1\n") refl (omega arith) tt (inl (omega arith, refl))

start-InBounds : InBounds (start [] [])
start-InBounds = record {
  name_index = λ _. omega arith;
  value_index = λ e. cc e;
  name_size = omega arith;
  value_size = omega arith;
}

abbrev after_one : Scanner
after_one = record { sm = in_name; i = 1; varname = codes "r"; varval = [] }

one_byte : Visits callbacks after_one (start [] []) (codes "r=1") []
unfolding step
one_byte = next {s' = []} refl here

Visits-InBounds_example : InBounds after_one
Visits-InBounds_example = Visits-InBounds callbacks one_byte start-InBounds
