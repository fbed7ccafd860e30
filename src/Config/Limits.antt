-- ===== src/Config/Limits.antt =====
-- The loader never writes outside its arrays, and refuses what is too long for them.
use sillyweb.Base.{
  ℕ, suc, ◌+◌, ◌≤◌, ◌<◌, ◌≡◌, ◌≢◌, refl, ◌∙◌, Bool, true, false, List, [], ◌∷◌, ◌++◌, length, take,
  All, length-append, length-take, arith, Bytes, is_nonzero, ltb, ◌⊎◌, inl, inr, Bool-cases, c_str,
  ◌==◌,
}
use sillyweb.Config.{
  ConfigCallback, Mode, in_name, in_value, Scanner, Round, failed, continued, max_var_name_length,
  max_var_value_length, call_callback, after_call, step, load, Opened,
  config_load_callbackable_config,
}
use sillyweb.Config.Entries.{load-name, reads_into}

-- The index stays below the last byte of its array, which is left for a NUL, and the arrays hold
-- no more than was written.
pub record InBounds (m : Scanner) : Type 0 where
  pub name_index : m.sm ≡ in_name → m.i < max_var_name_length
  pub value_index : m.sm ≡ in_value → m.i < max_var_value_length
  pub name_size : length m.varname < max_var_name_length
  pub value_size : length m.varval < max_var_value_length

abbrev Keeps {ℓ} : {S : Type ℓ} → Round S → Type 0
Keeps (failed s) = Unit
Keeps (continued m s) = InBounds m

put-length : (i : ℕ) (held : Bytes) (c k : ℕ) → i < k → length (take i held ++ c ∷ []) < suc k
put-length i held c k h = omega (arith, length-append (take i held) (c ∷ []), length-take i held)

-- A name or a value is started anew.
at_start : (sm : Mode) (m : Scanner) → InBounds m → InBounds (record m { sm = sm; i = 0 })
at_start sm m h = record {
  name_index = λ _. omega arith;
  value_index = λ _. omega arith;
  name_size = h.name_size;
  value_size = h.value_size;
}

after_call-InBounds {ℓ} :
    {S : Type ℓ} (m : Scanner) → InBounds m → (r : S × Bool) → Keeps (after_call m r)
after_call-InBounds m h (s, true) = at_start in_name m h
after_call-InBounds m h (s, false) = tt

module _ {ℓ} {S : Type ℓ} (ks : List (ConfigCallback S)) where
  step-InBounds :
      (sm : Mode) (m : Scanner) (c : ℕ) (s : S) → m.sm ≡ sm → InBounds m → Keeps (step ks sm m c s)
  unfolding step
  step-InBounds in_name m c s e h = elim (Bool-cases (c == b'=')) [
    | inl eq ↦ rw eq (at_start in_value m h)
    | inr other ↦ elim (Bool-cases (ltb m.i 63)) [
      | inr full ↦ rw (other, full) tt
      | inl room ↦
          rw (other, room)
            (record {
              name_index = λ _. ground arith;
              value_index = λ x. cc;
              name_size = put-length m.i m.varname c 63 (ground arith);
              value_size = h.value_size;
            })
    ]
  ]
  step-InBounds in_value m c s e h = elim (Bool-cases (c == b'\n')) [
    | inl end ↦
        rw end (after_call-InBounds m h (call_callback ks (c_str m.varname) (c_str m.varval) s))
    | inr inside ↦ elim (Bool-cases (c == b'\r')) [
      | inl skip ↦ rw (inside, skip) h
      | inr other ↦ elim (Bool-cases (ltb m.i 511)) [
        | inr full ↦ rw (inside, other, full) tt
        | inl room ↦
            rw (inside, other, room)
              (record {
                name_index = λ x. cc;
                value_index = λ _. ground arith;
                name_size = h.name_size;
                value_size = put-length m.i m.varval c 511 (ground arith);
              })
      ]
    ]
  ]

  -- The loop over `bytes` from the scanner `m` passes through the scanner `last`.
  pub data Visits (last : Scanner) : Scanner → Bytes → S → Type ℓ where
    here : {bytes : Bytes} {s : S} → Visits last last bytes s
    next :
        {m m' : Scanner} {c : ℕ} {cs : Bytes} {s s' : S}
        → step ks m.sm m c s ≡ continued m' s'
        → Visits last m' cs s'
        → Visits last m (c ∷ cs) s

  -- The loop of the loader writes within its arrays: from a scanner within bounds it passes only
  -- through scanners within bounds, whatever it reads.
  pub Visits-InBounds :
      {last m : Scanner} {bytes : Bytes} {s : S}
      → Visits last m bytes s
      → InBounds m
      → InBounds last
  Visits-InBounds here h = h
  Visits-InBounds {m} {s} (next {c} e v) h =
      Visits-InBounds v (rw e at (step-InBounds m.sm m c s refl h))

module _ {ℓ} {S : Type ℓ} (ks : List (ConfigCallback S)) (s : S) where
  load-long_name :
      (i : ℕ) (n v ns rest : Bytes)
      → i ≤ 63
      → All (λ c. c ≢ b'=') ns
      → 64 ≤ i + length ns
      → load ks (record { sm = in_name; i = i; varname = n; varval = v }) (ns ++ rest) s
        ≡ (s, false)
  unfolding load step
  load-long_name i n v [] rest b h l = absurd (omega arith)
  load-long_name i n v (c ∷ ns) rest b h l =
      ground (arith, load-long_name (i + 1) (take i n ++ c ∷ []) v ns rest)

  load-long_value :
      (i : ℕ) (n v vs rest : Bytes)
      → i ≤ 511
      → All (λ c. (c ≢ b'\n') × (c ≢ b'\r')) vs
      → 512 ≤ i + length vs
      → load ks (record { sm = in_value; i = i; varname = n; varval = v }) (vs ++ rest) s
        ≡ (s, false)
  unfolding load step
  load-long_value i n v [] rest b h l = absurd (omega arith)
  load-long_value i n v (c ∷ vs) rest b h l =
      ground (arith, load-long_value (i + 1) n (take i v ++ c ∷ []) vs rest)

module _ {ℓ} {S : Type ℓ} (files : Bytes → Opened) (junk : Bytes × Bytes) (cfile : Bytes)
    (ks : List (ConfigCallback S)) (s : S) where
  -- A file that begins with a name of 64 bytes or more, or with a name of at most 63 bytes and a
  -- value of 512 bytes or more, is refused before any callback is called.
  pub config_load-too_long :
      (ns vs rest : Bytes)
      → is_nonzero (files cfile).fd ≡ true
      → All (λ c. c ≢ b'=') ns
      → All (λ c. (c ≢ b'\n') × (c ≢ b'\r')) vs
      → ((64 ≤ length ns) × ((files cfile).bytes ≡ ns ++ rest))
        ⊎ ((length ns ≤ 63)
            × (512 ≤ length vs)
            × ((files cfile).bytes ≡ ns ++ (b'=' ∷ (vs ++ rest))))
      → config_load_callbackable_config files junk cfile ks s ≡ (s, false)
  unfolding config_load_callbackable_config
  config_load-too_long ns vs rest opened h k (inl (long, held)) =
      rw (opened, held) (load-long_name ks s 0 junk.0 junk.1 ns rest (omega arith) h (omega arith))
  config_load-too_long ns vs rest opened h k (inr (short, long, held)) =
      rw (opened, held)
        (load-name ks s junk.0 junk.1 ns (vs ++ rest) h short
          ∙ load-long_value ks s 0 (reads_into junk.0 ns) junk.1 vs rest (omega arith) k
              (omega arith))
