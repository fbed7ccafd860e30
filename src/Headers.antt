-- ===== src/Headers.antt =====
-- headers.c: a linked list of named values, as the list of its nodes from the head on.
pub mod Lookup
use sillyweb.Base.{
  Bool, true, false, List, [], ◌∷◌, ◌++◌, Option, none, some, ℕ, if◌then◌else◌, Bytes, same, String,
  codes,
}
use sillyweb.Memory.{Allocator}

-- `header_t`. Both strings are copies by `strdup`, which is taken to succeed.
pub record Header : Type 0 where
  pub header_name : Bytes
  pub header_value : Bytes

-- `sizeof(header_t)` on a 64-bit target
abbrev pub sizeof_header : ℕ
sizeof_header = 24

-- The new node goes behind the last one, if `calloc` returns one.
unfoldable pub add_header : Allocator → List Header → Bytes → Bytes → List Header
add_header mem head name value =
    if mem.calloc sizeof_header
    then head ++ record { header_name = name; header_value = value } ∷ []
    else head

-- The value of the first header of that name. A default of NULL is `none`.
unfoldable pub get_header_value : List Header → Option Bytes → Bytes → Option Bytes
get_header_value [] defaultval name = defaultval
get_header_value (h ∷ hs) defaultval name =
    if same name h.header_name then some h.header_value else get_header_value hs defaultval name

-- Every header of that name gets the value.
unfoldable pub update_header_value : List Header → Bytes → Bytes → List Header
update_header_value [] name value = []
update_header_value (h ∷ hs) name value =
    (if same name h.header_name then record h { header_value = value } else h)
    ∷ update_header_value hs name value

-- All nodes are freed, and the head is NULL.
unfoldable pub del_headers : List Header → List Header
del_headers head = []
