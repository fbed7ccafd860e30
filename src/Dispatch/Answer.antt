-- ===== src/Dispatch/Answer.antt =====
-- The answer to a request that is refused on a connection that has a method.
use sillyweb.Base.{ℤ, List, ℕ, ◌≡◌, Bool, [], ◌∷◌, if◌then◌else◌, Bytes, codes}
use sillyweb.Headers.{Header}
use sillyweb.Platform.{Platform}
use sillyweb.Service.{Transport}
use sillyweb.Client.{Client}

-- Closing sends nothing.
pub record IsQuiet (os : Platform) (sent : os.World → Bytes) : Type 0 where
  pub close_quiet : (fd : ℤ) (w : os.World) → sent (os.close fd w) ≡ sent w
  pub ssl_free_quiet : (ctx : ℕ) (w : os.World) → sent (os.ssl_free ctx w) ≡ sent w

-- The two headers that a refusal adds.
abbrev pub refusal_headers : Bool → List Header
refusal_headers close =
    record { header_name = codes "Content-type"; header_value = codes "text/html" }
    ∷ record {
      header_name = codes "Connection";
      header_value = if close then codes "Close" else codes "Keep-Alive";
    }
    ∷ []
