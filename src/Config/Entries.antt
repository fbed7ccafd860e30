-- ===== src/Config/Entries.antt =====
-- Loading a file of entries calls the callback of each, in order.
use mathlib.Core.Path.{fun_ext}
use sillyweb.Base.{
  ℕ, ◌⊎◌, inl, inr, ◌+◌, ◌≤◌, ◌<◌, ◌≡◌, ◌≢◌, refl, ap, ◌∙◌, Bool, true, false, List, [], ◌∷◌, ◌++◌,
  length, All, IsText, length-append, append-nil, append_assoc, take_all, arith, Bytes, c_str,
  c_str-IsText, is_nonzero,
}
use sillyweb.Config.{
  ConfigCallback, in_name, in_value, Scanner, continued, to_value, call_callback, step, load, start,
  Opened, config_load_callbackable_config,
}

pub record Entry : Type 0 where
  pub name : Bytes
  pub value : Bytes

-- A line of the file.
abbrev pub render : Entry → Bytes → Bytes
render e rest = e.name ++ (b'=' ∷ (e.value ++ (b'\n' ∷ rest)))

abbrev pub render_all : List Entry → Bytes
render_all [] = []
render_all (e ∷ es) = render e (render_all es)

-- The entry can be written, and is short enough for the arrays of the loader.
pub record Fits (e : Entry) : Type 0 where
  pub name_chars : All (λ c. c ≢ b'=') e.name
  pub name_length : length e.name ≤ 63
  pub value_chars : All (λ c. (c ≢ b'\n') × (c ≢ b'\r')) e.value
  pub value_length : length e.value ≤ 511

-- What an array holds after a string was read into it: an empty string leaves the old one.
abbrev pub reads_into : Bytes → Bytes → Bytes
reads_into old [] = old
reads_into old (c ∷ cs) = c ∷ cs

pub Pair-cases {ℓ} :
    {S : Type ℓ} (r : S × Bool) → ((s : S) × (r ≡ (s, true))) ⊎ ((s : S) × (r ≡ (s, false)))
Pair-cases (s, true) = inl (s, refl)
Pair-cases (s, false) = inr (s, refl)

-- An entry with a name and a value, and no NUL in them.
pub record IsWhole (e : Entry) : Type 0 where
  pub name_positive : 1 ≤ length e.name
  pub value_positive : 1 ≤ length e.value
  pub name_text : IsText e.name
  pub value_text : IsText e.value

reads_into-whole : (old s : Bytes) → 1 ≤ length s → reads_into old s ≡ s
reads_into-whole old [] h = absurd (omega arith)
reads_into-whole old (c ∷ cs) h = refl

-- To go on unless a callback has returned 0.
abbrev pub unless_failed {ℓ} : {S : Type ℓ} → (S → S × Bool) → S × Bool → S × Bool
unless_failed k (s, true) = k s
unless_failed k (s, false) = (s, false)

module _ {ℓ} {S : Type ℓ} (ks : List (ConfigCallback S)) where
  -- The callbacks, each with its own value.
  unfoldable pub run_entries : List Entry → S → S × Bool
  run_entries [] s = (s, true)
  run_entries (e ∷ es) s = unless_failed (run_entries es) (call_callback ks e.name e.value s)

  -- The callbacks that are called while the arrays hold `name` and `value` at first: an empty name
  -- or value is taken for the one before.
  unfoldable pub run_stale : Bytes → Bytes → List Entry → S → S × Bool
  run_stale name value [] s = (s, true)
  run_stale name value (e ∷ es) s =
      let n = reads_into name e.name in
      let v = reads_into value e.value in
      unless_failed (run_stale n v es) (call_callback ks (c_str n) (c_str v) s)

module _ {ℓ} {S : Type ℓ} (ks : List (ConfigCallback S)) (s : S) where
  load-step :
      (m m' : Scanner) (c : ℕ) (cs : Bytes)
      → step ks m.sm m c s ≡ continued m' s
      → load ks m (c ∷ cs) s ≡ load ks m' cs s
  unfolding load
  load-step m m' c cs e = rw (load, e)

  -- The loop is inside a name, or inside a value, that begins with `p`.
  abbrev name_at : Bytes → Bytes → Scanner
  name_at p v = record { sm = in_name; i = length p; varname = p; varval = v }

  abbrev value_at : Bytes → Bytes → Scanner
  value_at n p = record { sm = in_value; i = length p; varname = n; varval = p }

  name_step :
      (p v : Bytes) (c : ℕ)
      → c ≢ b'='
      → length p < 63
      → step ks in_name (name_at p v) c s ≡ continued (name_at (p ++ c ∷ []) v) s
  unfolding step
  name_step p v c h k =
      ground (arith, take_all (length p) p (omega arith), length-append p (c ∷ []))

  value_step :
      (n p : Bytes) (c : ℕ)
      → c ≢ b'\n'
      → c ≢ b'\r'
      → length p < 511
      → step ks in_value (value_at n p) c s ≡ continued (value_at n (p ++ c ∷ [])) s
  unfolding step
  value_step n p c h h' k =
      ground (arith, take_all (length p) p (omega arith), length-append p (c ∷ []))

  load-name_from :
      (p ns v rest : Bytes)
      → All (λ c. c ≢ b'=') ns
      → length p + length ns ≤ 63
      → load ks (name_at p v) (ns ++ rest) s ≡ load ks (name_at (p ++ ns) v) rest s
  load-name_from p [] v rest h k = rw append-nil
  load-name_from p (c ∷ ns) v rest h k =
      load-step _ _ c (ns ++ rest) (name_step p v c h.0 (omega arith))
      ∙ load-name_from (p ++ c ∷ []) ns v rest h.1 (omega (arith, length-append p (c ∷ [])))
      ∙ ap (λ q. load ks (name_at q v) rest s) (append_assoc p (c ∷ []) ns)

  load-value_from :
      (n p vs rest : Bytes)
      → All (λ c. (c ≢ b'\n') × (c ≢ b'\r')) vs
      → length p + length vs ≤ 511
      → load ks (value_at n p) (vs ++ rest) s ≡ load ks (value_at n (p ++ vs)) rest s
  load-value_from n p [] rest h k = rw append-nil
  load-value_from n p (c ∷ vs) rest h k =
      load-step _ _ c (vs ++ rest) (value_step n p c h.0.0 h.0.1 (omega arith))
      ∙ load-value_from n (p ++ c ∷ []) vs rest h.1 (omega (arith, length-append p (c ∷ [])))
      ∙ ap (λ q. load ks (value_at n q) rest s) (append_assoc p (c ∷ []) vs)

  -- From the start of a name, up to the `=` behind it.
  pub load-name :
      (n v ns rest : Bytes)
      → All (λ c. c ≢ b'=') ns
      → length ns ≤ 63
      → load ks (start n v) (ns ++ (b'=' ∷ rest)) s
        ≡ load ks (record { sm = in_value; i = 0; varname = reads_into n ns; varval = v }) rest s
  load-name n v [] rest h k =
      load-step (start n v) (to_value (start n v)) b'=' rest (unfold step in refl)
  load-name n v (c ∷ ns) rest h k =
      load-step (start n v) (name_at (c ∷ []) v) c (ns ++ (b'=' ∷ rest))
        (unfold step in ground arith)
      ∙ load-name_from (c ∷ []) ns v (b'=' ∷ rest) h.1 (omega arith)
      ∙ load-step (name_at (c ∷ ns) v) (to_value (name_at (c ∷ ns) v)) b'=' rest
          (unfold step in refl)

  -- The end of a line, wherever the value ends.
  line_end :
      (n v : Bytes) (i : ℕ) (rest : Bytes)
      → load ks (record { sm = in_value; i = i; varname = n; varval = v }) (b'\n' ∷ rest) s
        ≡ unless_failed (load ks (start n v) rest) (call_callback ks (c_str n) (c_str v) s)
  unfolding load step
  line_end n v i rest = elim (Pair-cases (call_callback ks (c_str n) (c_str v) s)) [
    | inl (s', e) ↦ rw (load, e, e)
    | inr (s', e) ↦ rw (load, e, e)
  ]

  -- From the start of a value, up to the end of its line.
  load-value :
      (n v vs rest : Bytes)
      → All (λ c. (c ≢ b'\n') × (c ≢ b'\r')) vs
      → length vs ≤ 511
      → load ks (record { sm = in_value; i = 0; varname = n; varval = v }) (vs ++ (b'\n' ∷ rest)) s
        ≡ unless_failed
            (load ks (start n (reads_into v vs)) rest)
            (call_callback ks (c_str n) (c_str (reads_into v vs)) s)
  load-value n v [] rest h k = line_end n v 0 rest
  load-value n v (c ∷ vs) rest h k =
      load-step (record { sm = in_value; i = 0; varname = n; varval = v }) (value_at n (c ∷ [])) c
        (vs ++ (b'\n' ∷ rest)) (unfold step in ground arith)
      ∙ load-value_from n (c ∷ []) vs (b'\n' ∷ rest) h.1 (omega arith)
      ∙ line_end n (c ∷ vs) (length (c ∷ vs)) rest

module _ {ℓ} {S : Type ℓ} (ks : List (ConfigCallback S)) where
  load-run_stale :
      (n v : Bytes) (es : List Entry) (s : S)
      → All Fits es
      → load ks (start n v) (render_all es) s ≡ run_stale ks n v es s
  unfolding run_stale
  load-run_stale n v [] s h = unfold load in refl
  load-run_stale n v (e ∷ es) s h =
      let fits = h.0 in
      let n' = reads_into n e.name in
      let v' = reads_into v e.value in
      load-name ks s n v e.name (e.value ++ (b'\n' ∷ render_all es)) fits.name_chars
        fits.name_length
      ∙ load-value ks s n' v e.value (render_all es) fits.value_chars fits.value_length
      ∙ ap (λ k. unless_failed k (call_callback ks (c_str n') (c_str v') s))
          (fun_ext λ s'. load-run_stale n' v' es s' h.1)

  run_stale-run_entries :
      (n v : Bytes) (es : List Entry) (s : S)
      → All IsWhole es
      → run_stale ks n v es s ≡ run_entries ks es s
  unfolding run_stale run_entries
  run_stale-run_entries n v [] s h = refl
  run_stale-run_entries n v (e ∷ es) s h =
      let whole = h.0 in
      rw
        (
          reads_into-whole n e.name whole.name_positive,
          reads_into-whole v e.value whole.value_positive,
          c_str-IsText e.name whole.name_text,
          c_str-IsText e.value whole.value_text,
        )
        (ap (λ k. unless_failed k (call_callback ks e.name e.value s))
          (fun_ext λ s'. run_stale-run_entries e.name e.value es s' h.1))

module _ {ℓ} {S : Type ℓ} (files : Bytes → Opened) (junk : Bytes × Bytes) (cfile : Bytes)
    (ks : List (ConfigCallback S)) (es : List Entry) (s : S) where
  -- A file that opens and holds entries that fit, each with a name and a value: the loader calls
  -- for each entry, in order, the first callback of its name with its value, up to the first that
  -- returns 0, and returns 1 exactly if none did. What the arrays held at first does not matter.
  pub config_load-run_entries :
      is_nonzero (files cfile).fd ≡ true
      → (files cfile).bytes ≡ render_all es
      → All Fits es
      → All IsWhole es
      → config_load_callbackable_config files junk cfile ks s ≡ run_entries ks es s
  unfolding config_load_callbackable_config
  config_load-run_entries opened held fits whole =
      rw (opened, held)
        (load-run_stale ks junk.0 junk.1 es s fits
          ∙ run_stale-run_entries ks junk.0 junk.1 es s whole)

  -- The same with empty names and values: an entry with an empty name calls the callback of the
  -- name before it, and one with an empty value hands over the value before it.
  pub config_load-run_stale :
      is_nonzero (files cfile).fd ≡ true
      → (files cfile).bytes ≡ render_all es
      → All Fits es
      → config_load_callbackable_config files junk cfile ks s ≡ run_stale ks junk.0 junk.1 es s
  unfolding config_load_callbackable_config
  config_load-run_stale opened held fits =
      rw (opened, held) (load-run_stale ks junk.0 junk.1 es s fits)
