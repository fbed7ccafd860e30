-- ===== src/Listing/Page.antt =====
-- The page that a directory listing puts into the output buffer.
use sillyweb.Base.{
  ℕ, ◌+◌, ◌^◌, ◌<◌, ◌≤◌, ◌≡◌, refl, sym, ap, ◌∙◌, List, [], ◌∷◌, ◌++◌, Option, none, some, length,
  take, All, Bytes, codes, pos, arith, length-append, length-take, take_all, take-append_of_length,
  append_assoc, append-nil, elim_some, inl, inr,
}
use sillyweb.Memory.{Allocator, IsAmple}
use sillyweb.Buffer.{Buffer}
use sillyweb.Buffer.Content.{content, IsValid, append_buffer-AppendsTo}
use sillyweb.Headers.{Header, add_header, sizeof_header}
use sillyweb.Platform.{Platform}
use sillyweb.Service.{Vhost}
use sillyweb.Client.{Client}
use sillyweb.Transfer.{int_text}
use sillyweb.Listing.{
  Piece, printed, append_pieces, row, row_pieces, directory_pieces, title, table_head, footer,
  head_pieces, tail_pieces, page_pieces, residual_path, listing_in, generate_dir_listing,
}

-- The call appends this text, and reads no more of the array.
abbrev Writes : Piece → Bytes → Type 0
Writes p text = (p.size ≡ length text) × (p.size ≤ length p.array) × (take p.size p.array ≡ text)

abbrev AllWrite : List Piece → List Bytes → Type 0
AllWrite [] [] = Unit
AllWrite (p ∷ ps) (t ∷ ts) = Writes p t × AllWrite ps ts
AllWrite _ _ = ⊥

abbrev pub concat : List Bytes → Bytes
concat [] = []
concat (t ∷ ts) = t ++ concat ts

AllWrite-append :
    (ps qs : List Piece) (ts us : List Bytes)
    → AllWrite ps ts
    → AllWrite qs us
    → AllWrite (ps ++ qs) (ts ++ us)
AllWrite-append [] qs [] us h k = k
AllWrite-append [] qs (t ∷ ts) us h k = absurd h
AllWrite-append (p ∷ ps) qs [] us h k = absurd h
AllWrite-append (p ∷ ps) qs (t ∷ ts) us h k = (h.0, AllWrite-append ps qs ts us h.1 k)

printed-Writes : (text : Bytes) → length text ≤ 1023 → Writes (printed text) text
printed-Writes text h =
    let whole : take 1023 text ≡ text = take_all 1023 text h in
    (
      refl,
      omega (arith, length-append (take 1023 text) (0 ∷ []), length-take 1023 text),
      rw whole (take-append_of_length (length text) text (0 ∷ []) refl),
    )

module _ (mem : Allocator) (ample : IsAmple mem) where
  append_pieces-concat :
      (b : Buffer) (ps : List Piece) (ts : List Bytes)
      → AllWrite ps ts
      → IsValid b
      → b.len + length (concat ts) < 2 ^ 32
      → (b' : Buffer) × (append_pieces mem b ps ≡ some b')
        × IsValid b'
        × (content b' ≡ content b ++ concat ts)
        × (b'.len ≡ b.len + length (concat ts))
  unfolding append_pieces
  append_pieces-concat b [] [] h v fits = (b, refl, v, sym (append-nil (content b)), omega arith)
  append_pieces-concat b [] (t ∷ ts) h v fits = absurd h
  append_pieces-concat b (p ∷ ps) [] h v fits = absurd h
  append_pieces-concat b (p ∷ ps) (t ∷ ts) h v fits =
      let (size, room, text) = h.0 in
      let long = length-append t (concat ts) in
      let ((b₁, done), e, r) =
        append_buffer-AppendsTo mem b p.array p.size v room (omega (arith, long)) in
      elim r [
        | inl (_, v₁, same, len₁) ↦
            let (b₂, e₂, v₂, same₂, len₂) =
              append_pieces-concat b₁ ps ts h.1 v₁ (omega (arith, long)) in
            (
              b₂,
              rw (append_pieces, e) e₂,
              v₂,
              same₂
                  ∙ ap (λ s. s ++ concat ts) (same ∙ ap (λ s. content b ++ s) text)
                  ∙ append_assoc (content b) t (concat ts),
              omega (arith, long),
            )
        | inr (_, _, _, lost) ↦ absurd (ample.realloc_ample _ _ lost)
      ]

module _ (os : Platform) where
  open os use {World}

  -- The rows of a directory's entries.
  abbrev pub rows : Bytes → Bytes → World → List Bytes → List Bytes
  rows dir residual w [] = []
  rows dir residual w (name ∷ names) = row os dir residual w name ∷ rows dir residual w names

  abbrev pub directory_rows : Bytes → Bytes → World → Option (List Bytes) → List Bytes
  directory_rows dir residual w none = []
  directory_rows dir residual w (some names) = rows dir residual w names

  -- The page, as a list of its parts.
  abbrev pub page : Client → Vhost → Bytes → Bytes → World → List Bytes
  page c v dir residual w =
      (codes "<html>"
        ∷ codes "<body>"
        ∷ title residual
        ∷ codes "<tr colspan=3><hr></tr>"
        ∷ table_head
        ∷ [])
      ++ (directory_rows dir residual w (os.list_dir dir w)
          ++ (codes "</table>\n" ∷ footer c v ∷ codes "</body>" ∷ codes "</html>" ∷ []))

  rows-AllWrite :
      (dir residual : Bytes) (w : World) (names : List Bytes)
      → All (λ t. length t ≤ 1023) (rows dir residual w names)
      → AllWrite (row_pieces os dir residual w names) (rows dir residual w names)
  rows-AllWrite dir residual w [] h = tt
  rows-AllWrite dir residual w (name ∷ names) h =
      (printed-Writes (row os dir residual w name) h.0, rows-AllWrite dir residual w names h.1)

  directory-AllWrite :
      (dir residual : Bytes) (w : World) (names : Option (List Bytes))
      → All (λ t. length t ≤ 1023) (directory_rows dir residual w names)
      → AllWrite (directory_pieces os dir residual w names) (directory_rows dir residual w names)
  directory-AllWrite dir residual w none h = tt
  directory-AllWrite dir residual w (some names) h = rows-AllWrite dir residual w names h

  page_pieces-AllWrite :
      (mem : Allocator) (c : Client) (v : Vhost) (dir residual : Bytes) (w : World)
      → length (title residual) ≤ 1023
      → length (footer c v) ≤ 1023
      → All (λ t. length t ≤ 1023) (directory_rows dir residual w (os.list_dir dir w))
      → AllWrite (page_pieces os mem c v dir residual w) (page c v dir residual w)
  unfolding page_pieces
  page_pieces-AllWrite mem c v dir residual w h k r =
      let ending = codes "</table>\n" ∷ footer c v ∷ codes "</body>" ∷ codes "</html>" ∷ [] in
      AllWrite-append (head_pieces residual)
        (directory_pieces os dir residual w (os.list_dir dir w) ++ tail_pieces c v)
        (codes "<html>"
          ∷ codes "<body>"
          ∷ title residual
          ∷ codes "<tr colspan=3><hr></tr>"
          ∷ table_head
          ∷ [])
        (directory_rows dir residual w (os.list_dir dir w) ++ ending)
        (
          (refl, omega arith, refl),
          (
            (refl, omega arith, refl),
            (
              printed-Writes (title residual) h,
              ((refl, omega arith, refl), (printed-Writes table_head (omega arith), tt)),
            ),
          ),
        )
        (AllWrite-append (directory_pieces os dir residual w (os.list_dir dir w)) (tail_pieces c v)
          (directory_rows dir residual w (os.list_dir dir w)) ending
          (directory-AllWrite dir residual w (os.list_dir dir w) r)
          (
            printed-Writes (codes "</table>\n") (omega arith),
            (
              printed-Writes (footer c v) k,
              ((refl, omega arith, refl), ((refl, omega arith, refl), tt)),
            ),
          ))

-- The headers of a listing.
abbrev pub listing_headers : ℕ → List Header
listing_headers len =
    record { header_name = codes "Content-type"; header_value = codes "text/html" }
    ∷ record { header_name = codes "Content-Length"; header_value = int_text (pos len) }
    ∷ []

module _ (os : Platform) (mem : Allocator) (ample : IsAmple mem) where
  open os use {World}

  -- While there is memory, on a client with a virtual host and its root and a valid output buffer,
  -- where the title, the footer and each row are at most 1023 bytes long and all fits into 2 ^ 32
  -- bytes: `generate_dir_listing` stays within its arrays and blocks, appends to the output buffer
  -- the page with a row for each name that `readdir` gives, in that order (and none if the
  -- directory does not open), and adds the headers "Content-type" and "Content-Length", the latter
  -- with the length of the buffer.
  pub generate_dir_listing-page :
      (c : Client) (v : Vhost) (dir root : Bytes) (w : World)
      → c.vhost ≡ some v
      → v.document_root ≡ some root
      → IsValid c.outputbuffer
      → length (title (residual_path dir root)) ≤ 1023
      → length (footer c v) ≤ 1023
      → All
          (λ t. length t ≤ 1023)
          (directory_rows os dir (residual_path dir root) w (os.list_dir dir w))
      → c.outputbuffer.len + length (concat (page os c v dir (residual_path dir root) w)) < 2 ^ 32
      → (c' : Client) × (generate_dir_listing os mem c dir w ≡ some c')
        × IsValid c'.outputbuffer
        × (content c'.outputbuffer
            ≡ content c.outputbuffer ++ concat (page os c v dir (residual_path dir root) w))
        × (c'.outbound_headers ≡ c.outbound_headers ++ listing_headers c'.outputbuffer.len)
  unfolding generate_dir_listing listing_in add_header
  generate_dir_listing-page c v dir root w host docs valid h k r fits =
      let residual = residual_path dir root in
      let (b, e, valid', same, _) =
        append_pieces-concat mem ample c.outputbuffer (page_pieces os mem c v dir residual w)
          (page os c v dir residual w) (page_pieces-AllWrite os mem c v dir residual w h k r) valid
          fits in
      let more = ample.calloc_ample sizeof_header in
      (
        record c {
          outputbuffer = b;
          outbound_headers = c.outbound_headers ++ listing_headers b.len;
        },
        elim_some c.vhost _ v host
            ∙ elim_some v.document_root _ root docs
            ∙ elim_some _ _ b e
            ∙ rw more (
                ap
                  (λ (hs : List Header).
                    some (record c { outputbuffer = b; outbound_headers = hs }))
                  (append_assoc c.outbound_headers _ _)),
        valid',
        same,
        refl,
      )
