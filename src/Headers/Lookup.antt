-- ===== src/Headers/Lookup.antt =====
-- A header that was added is found, behind those of its name that were there before.
use mathlib.Core.Option
use sillyweb.Base.{
  ◌≡◌, refl, true, List, [], ◌∷◌, ◌++◌, Option, none, some, arith, if◌then◌else◌, Bytes, same,
  same_iff,
}
use sillyweb.Memory.{Allocator}
use sillyweb.Headers.{Header, sizeof_header, add_header, get_header_value, update_header_value}

-- What a lookup gives that falls back to `defaultval`.
abbrev pub or_default : Option Bytes → Option Bytes → Option Bytes
or_default (some v) defaultval = some v
or_default none defaultval = defaultval

get_header_value-none :
    (hs : List Header) (defaultval : Option Bytes) (name : Bytes)
    → get_header_value hs defaultval name ≡ or_default (get_header_value hs none name) defaultval
unfolding get_header_value
get_header_value-none [] d name = refl
get_header_value-none (h ∷ hs) d name = ground (arith, get_header_value-none hs d name)

get_header_value-append :
    (hs ks : List Header) (defaultval : Option Bytes) (name : Bytes)
    → get_header_value (hs ++ ks) defaultval name
      ≡ get_header_value hs (get_header_value ks defaultval name) name
unfolding get_header_value
get_header_value-append [] ks d name = refl
get_header_value-append (h ∷ hs) ks d name = ground (arith, get_header_value-append hs ks d name)

-- After an `add_header` for which there was memory a lookup of any name finds what it found before;
-- only a lookup of the new name that found nothing now finds the new value.
pub get_header_value-add_header :
    (mem : Allocator) (hs : List Header) (name value j : Bytes) (defaultval : Option Bytes)
    → mem.calloc sizeof_header ≡ true
    → get_header_value (add_header mem hs name value) defaultval j
      ≡ or_default (get_header_value hs none j) (if same j name then some value else defaultval)
get_header_value-add_header mem hs name value j d ok =
    unfold add_header in
    rw ok
      (rw (get_header_value-append, get_header_value-none hs _ j) (unfold get_header_value in refl))

-- After `update_header_value` a lookup of that name finds the new value if the name was there, and
-- every other lookup finds what it found before; no header appears or goes.
get_header_value-update :
    (hs : List Header) (name value j : Bytes) (defaultval : Option Bytes)
    → get_header_value (update_header_value hs name value) defaultval j ≡ (
        if same name j
        then or_default (Option.map (λ _. value) (get_header_value hs none j)) defaultval
        else get_header_value hs defaultval j)
unfolding get_header_value update_header_value
get_header_value-update [] name value j d = ground arith
get_header_value-update (h ∷ hs) name value j d = ground (
  arith,
  get_header_value-update hs name value j d,
  same_iff name j,
  same_iff j h.header_name,
  same_iff name h.header_name,
)
