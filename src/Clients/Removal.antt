-- ===== src/Clients/Removal.antt =====
-- Which nodes `del_client_struct` removes.
use sillyweb.Base.{ℕ, ◌≡◌, ◌≢◌, refl, false, List, [], ◌∷◌, ◌++◌, All, arith, ◌==◌, ==_refl}
use sillyweb.Clients.{Node, add_new_client_struct, del_scan, del_client_struct}

abbrev pub Others : ℕ → List Node → Type 0
Others a = All (λ n. n.address ≢ a)

del_scan-before :
    (front : List Node) (n next : Node) (rest : List Node)
    → Others n.address front
    → del_scan n.address (front ++ (n ∷ next ∷ rest)) ≡ front ++ (next ∷ rest)
unfolding del_scan
del_scan-before [] n next rest h = rw (==_refl n.address)
del_scan-before (x ∷ []) n next rest h = ground (arith, ==_refl n.address)
del_scan-before (x ∷ y ∷ front) n next rest h =
    ground (arith, del_scan-before (y ∷ front) n next rest h.1)

del_scan-last :
    (front : List Node) (n : Node)
    → Others n.address front
    → del_scan n.address (front ++ n ∷ []) ≡ front ++ n ∷ []
unfolding del_scan
del_scan-last [] n h = refl
del_scan-last (x ∷ []) n h = ground arith
del_scan-last (x ∷ y ∷ front) n h = ground (arith, del_scan-last (y ∷ front) n h.1)

del_client_struct-before :
    (front : List Node) (n next : Node) (rest : List Node)
    → Others n.address front
    → del_client_struct (front ++ (n ∷ next ∷ rest)) n.address ≡ front ++ (next ∷ rest)
unfolding del_client_struct
del_client_struct-before [] n next rest h = rw (==_refl n.address)
del_client_struct-before (x ∷ front) n next rest h =
    let other : (n.address == x.address) ≡ false = ground (arith, h.0) in
    rw other (del_scan-before (x ∷ front) n next rest h)

-- Before `n` in the list stand nodes of other addresses. If `n` is the head, or has a node behind
-- it, it is removed, and nothing else; if it is the last of two or more nodes it is not, and the
-- list stays as it is.
pub del_client_struct-exact :
    (head : Node) (front : List Node) (n next : Node) (rest : List Node)
    → Others n.address (head ∷ front)
    → (del_client_struct (n ∷ rest) n.address ≡ rest)
      × (del_client_struct ((head ∷ front) ++ (n ∷ next ∷ rest)) n.address
          ≡ (head ∷ front) ++ (next ∷ rest))
      × (del_client_struct (add_new_client_struct (head ∷ front) n) n.address
          ≡ add_new_client_struct (head ∷ front) n)
unfolding del_client_struct add_new_client_struct
del_client_struct-exact head front n next rest h =
    let other : (n.address == head.address) ≡ false = ground (arith, h.0) in
    (
      rw (==_refl n.address),
      del_client_struct-before (head ∷ front) n next rest h,
      rw other (del_scan-last (head ∷ front) n h),
    )
