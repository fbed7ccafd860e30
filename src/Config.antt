-- ===== src/Config.antt =====
-- config.c: the loader of "NAME=value" files, which calls the callback of each name.
pub mod Entries
pub mod Limits
pub mod Handlers
pub mod Settings
pub mod Ports
pub mod Servers
pub mod Hosts
use sillyweb.Base.{
  ℕ, ◌+◌, ◌-◌, Bool, true, false, List, [], ◌∷◌, ◌++◌, ◌==◌, ltb, take, if◌then◌else◌, Bytes, c_str,
  same, ℤ, is_nonzero,
}

abbrev pub max_var_name_length : ℕ
max_var_name_length = 64

abbrev pub max_var_value_length : ℕ
max_var_value_length = 512

-- `struct config_callback`, over the state that the callbacks change; `varctx` is part of the
-- function. The flag is false for a return value of 0.
pub record ConfigCallback {ℓ} (S : Type ℓ) : Type ℓ where
  pub varname : Bytes
  pub callback : Bytes → S → S × Bool

-- The variable `sm`: 0 in a name, 1 in a value.
pub data Mode : Type 0 where
  in_name in_value : Mode

-- The locals of the loop: the two arrays up to the last byte written since they were started anew,
-- each with a NUL behind, and the index `i`.
pub record Scanner : Type 0 where
  pub sm : Mode
  pub i : ℕ
  pub varname : Bytes
  pub varval : Bytes

-- One round of the loop: `return 0`, or the next round.
pub data Round {ℓ} (S : Type ℓ) : Type ℓ where
  failed : S → Round S
  continued : Scanner → S → Round S

-- `varname[i++] = c; varname[i] = 0;`
abbrev pub put_name : Scanner → ℕ → Scanner
put_name m c = record m { varname = take m.i m.varname ++ c ∷ []; i = m.i + 1 }

abbrev pub put_value : Scanner → ℕ → Scanner
put_value m c = record m { varval = take m.i m.varval ++ c ∷ []; i = m.i + 1 }

abbrev pub to_value : Scanner → Scanner
to_value m = record m { sm = in_value; i = 0 }

abbrev pub to_name : Scanner → Scanner
to_name m = record m { sm = in_name; i = 0 }

module _ {ℓ} {S : Type ℓ} where
  -- The search for the callback of a name; a name with none is passed over.
  unfoldable pub call_callback : List (ConfigCallback S) → Bytes → Bytes → S → S × Bool
  call_callback [] name value s = (s, true)
  call_callback (k ∷ ks) name value s =
      if same name k.varname then k.callback value s else call_callback ks name value s

  -- the end of a value, after the callback
  abbrev pub after_call : Scanner → S × Bool → Round S
  after_call m (s, true) = continued (to_name m) s
  after_call m (s, false) = failed s

  -- `case 0`
  abbrev pub step_name : Scanner → ℕ → S → Round S
  step_name m c s =
      if c == b'='
      then continued (to_value m) s
      else if ltb m.i (max_var_name_length - 1)
      then continued (put_name m c) s
      else failed s

  -- `case 1`
  abbrev pub step_value : List (ConfigCallback S) → Scanner → ℕ → S → Round S
  step_value ks m c s =
      if c == b'\n'
      then after_call m (call_callback ks (c_str m.varname) (c_str m.varval) s)
      else if c == b'\r'
      then continued m s
      else if ltb m.i (max_var_value_length - 1)
      then continued (put_value m c) s
      else failed s

  unfoldable pub step : List (ConfigCallback S) → Mode → Scanner → ℕ → S → Round S
  step ks in_name m c s = step_name m c s
  step ks in_value m c s = step_value ks m c s

  -- The loop over the bytes that `read` gives, up to a result of 0 or -1.
  unfoldable pub load : List (ConfigCallback S) → Scanner → Bytes → S → S × Bool
  load ks m [] s = (s, true)
  load ks m (c ∷ cs) s = elim (step ks m.sm m c s) [
    | failed s' ↦ (s', false)
    | continued m' s' ↦ load ks m' cs s'
  ]

-- What `open` and the calls of `read` give: the descriptor, or -1, and the bytes up to the first
-- result of `read` that is not positive.
pub record Opened : Type 0 where
  pub fd : ℤ
  pub bytes : Bytes

-- The scanner before the first byte; the arrays are not initialised.
abbrev pub start : Bytes → Bytes → Scanner
start name value = record { sm = in_name; i = 0; varname = name; varval = value }

-- `files` is the file system, and `junk` what the arrays hold at first.
unfoldable pub config_load_callbackable_config {ℓ} :
    {S : Type ℓ} → (Bytes → Opened) → Bytes × Bytes → Bytes → List (ConfigCallback S) → S → S × Bool
unfolding load
config_load_callbackable_config files junk cfile callbacks s =
    if is_nonzero (files cfile).fd
    then load callbacks (start junk.0 junk.1) (files cfile).bytes s
    else (s, false)
