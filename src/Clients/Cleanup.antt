-- ===== src/Clients/Cleanup.antt =====
-- Which clients `cleanup_dead_clients` leaves in the list.
use sillyweb.Base.{
  ℕ, ◌≡◌, ◌≢◌, refl, sym, ap, ◌∙◌, false, List, [], ◌∷◌, ◌++◌, All, arith, ◌==◌, ==_refl,
  if◌then◌else◌, Bool-cases, if_true, if_false, inl, inr, append_assoc, append-nil,
}
use sillyweb.Platform.{Platform}
use sillyweb.Client.{Client}
use sillyweb.Clients.{
  Node, State, del_scan, del_client_struct, write, delete_client, cleanup_from,
  cleanup_dead_clients,
}

abbrev pub addresses : List Node → List ℕ
addresses [] = []
addresses (n ∷ ns) = n.address ∷ addresses ns

-- The addresses of the clients that are active.
abbrev pub alive : List Node → List ℕ
alive [] = []
alive (n ∷ ns) = if n.client.active then n.address ∷ alive ns else alive ns

abbrev pub Distinct : List ℕ → Type 0
Distinct [] = Unit
Distinct (a ∷ rest) = All (λ b. b ≢ a) rest × Distinct rest

-- `del_client_struct`, on addresses alone.
unfoldable pub scan : ℕ → List ℕ → List ℕ
scan a [] = []
scan a (x ∷ []) = x ∷ []
scan a (x ∷ y ∷ rest) = let others = scan a (y ∷ rest) in if x == a then y ∷ rest else x ∷ others

unfoldable pub del : List ℕ → ℕ → List ℕ
del [] a = []
del (x ∷ rest) a = if a == x then rest else scan a (x ∷ rest)

addresses-scan : (a : ℕ) (l : List Node) → addresses (del_scan a l) ≡ scan a (addresses l)
unfolding del_scan scan
addresses-scan a [] = refl
addresses-scan a (x ∷ []) = refl
addresses-scan a (x ∷ y ∷ l) = ground (arith, addresses-scan a (y ∷ l))

addresses-del : (l : List Node) (a : ℕ) → addresses (del_client_struct l a) ≡ del (addresses l) a
unfolding del_client_struct del
addresses-del [] a = refl
addresses-del (x ∷ l) a = ground (arith, addresses-scan a (x ∷ l))

addresses-write :
    (a : ℕ) (f : Client → Client) (l : List Node) → addresses (write a f l) ≡ addresses l
unfolding write
addresses-write a f [] = refl
addresses-write a f (n ∷ l) = ground (arith, addresses-write a f l)

-- Removal behind active nodes `kept`.
scan-kept :
    (kept : List ℕ) (a b : ℕ) (rest : List ℕ)
    → All (λ x. x ≢ a) kept
    → scan a (kept ++ (a ∷ b ∷ rest)) ≡ kept ++ (b ∷ rest)
unfolding scan
scan-kept [] a b rest h = rw (==_refl a)
scan-kept (x ∷ []) a b rest h = ground (arith, ==_refl a)
scan-kept (x ∷ y ∷ kept) a b rest h = ground (arith, scan-kept (y ∷ kept) a b rest h.1)

scan-kept_last :
    (kept : List ℕ) (a : ℕ) → All (λ x. x ≢ a) kept → scan a (kept ++ a ∷ []) ≡ kept ++ a ∷ []
unfolding scan
scan-kept_last [] a h = refl
scan-kept_last (x ∷ []) a h = ground arith
scan-kept_last (x ∷ y ∷ kept) a h = ground (arith, scan-kept_last (y ∷ kept) a h.1)

del-kept :
    (kept : List ℕ) (a b : ℕ) (rest : List ℕ)
    → All (λ x. x ≢ a) kept
    → del (kept ++ (a ∷ b ∷ rest)) a ≡ kept ++ (b ∷ rest)
unfolding del
del-kept [] a b rest h = rw (==_refl a)
del-kept (x ∷ kept) a b rest h =
    let other : (a == x) ≡ false = ground (arith, h.0) in rw other (scan-kept (x ∷ kept) a b rest h)

-- What is left of a last node that is dead.
abbrev pub last_dead : List ℕ → ℕ → List ℕ
last_dead [] a = []
last_dead (x ∷ kept) a = (x ∷ kept) ++ a ∷ []

del-kept_last :
    (kept : List ℕ) (a : ℕ) → All (λ x. x ≢ a) kept → del (kept ++ a ∷ []) a ≡ last_dead kept a
unfolding del
del-kept_last [] a h = rw (==_refl a)
del-kept_last (x ∷ kept) a h =
    let other : (a == x) ≡ false = ground (arith, h.0) in rw other (scan-kept_last (x ∷ kept) a h)

All-middle :
    (P : ℕ → Type 0) (xs : List ℕ) (a : ℕ) (ys : List ℕ)
    → All P (xs ++ (a ∷ ys))
    → P a × All P (xs ++ ys)
All-middle P [] a ys h = (h.0, h.1)
All-middle P (x ∷ xs) a ys h = let (here, rest) = All-middle P xs a ys h.1 in (here, (h.0, rest))

Distinct-before :
    (kept : List ℕ) (a : ℕ) (rest : List ℕ) → Distinct (kept ++ (a ∷ rest)) → All (λ x. x ≢ a) kept
Distinct-before [] a rest h = tt
Distinct-before (x ∷ kept) a rest h =
    (λ e. (All-middle (λ b. b ≢ x) kept a rest h.0).0 (sym e), Distinct-before kept a rest h.1)

Distinct-without :
    (kept : List ℕ) (a : ℕ) (rest : List ℕ)
    → Distinct (kept ++ (a ∷ rest))
    → Distinct (kept ++ rest)
Distinct-without [] a rest h = h.1
Distinct-without (x ∷ kept) a rest h =
    ((All-middle (λ b. b ≢ x) kept a rest h.0).1, Distinct-without kept a rest h.1)

-- What the loop leaves of the nodes from some node on, behind the nodes `kept`.
left : List ℕ → List Node → List ℕ
left kept [] = kept
left kept (n ∷ []) = if n.client.active then kept ++ n.address ∷ [] else last_dead kept n.address
left kept (n ∷ m ∷ ns) = left (if n.client.active then kept ++ n.address ∷ [] else kept) (m ∷ ns)

-- What is left in the end, from the nodes that are left before the last one.
abbrev pub with_last : Node → List ℕ → List ℕ
with_last last kept =
    if last.client.active then kept ++ last.address ∷ [] else last_dead kept last.address

kept-alive :
    (kept : List ℕ) (n : Node) (ns : List Node)
    → (if n.client.active then kept ++ n.address ∷ [] else kept) ++ alive ns
      ≡ kept ++ alive (n ∷ ns)
kept-alive kept n ns = elim (Bool-cases n.client.active) [
  | inl live ↦ rw live (append_assoc kept (n.address ∷ []) (alive ns))
  | inr dead ↦ rw dead
]

left-last :
    (kept : List ℕ) (ns : List Node) (last : Node)
    → left kept (ns ++ last ∷ []) ≡ with_last last (kept ++ alive ns)
unfolding left
left-last kept [] last = rw append-nil
left-last kept (n ∷ []) last = left-last _ [] last ∙ ap (with_last last) (kept-alive kept n [])
left-last kept (n ∷ m ∷ ns) last =
    left-last _ (m ∷ ns) last ∙ ap (with_last last) (kept-alive kept n (m ∷ ns))

module _ (os : Platform) where
  pub addresses-delete_client :
      (n : Node) (s : State os)
      → addresses (delete_client os n s).clienthead ≡ del (addresses s.clienthead) n.address
  unfolding delete_client
  addresses-delete_client n s =
      addresses-del (write n.address _ s.clienthead) n.address
      ∙ ap (λ l. del l n.address) (addresses-write n.address _ s.clienthead)

  cleanup_from-left :
      (ns : List Node) (kept : List ℕ) (s : State os)
      → addresses s.clienthead ≡ kept ++ addresses ns
      → Distinct (kept ++ addresses ns)
      → addresses (cleanup_from os ns s).clienthead ≡ left kept ns
  unfolding cleanup_from left
  cleanup_from-left [] kept s e d = e ∙ append-nil kept
  cleanup_from-left (n ∷ []) kept s e d = elim (Bool-cases n.client.active) [
    | inl live ↦ ap shown (if_true s dropped live) ∙ e ∙ sym (if_true _ _ live)
    | inr dead ↦
        ap shown (if_false s dropped dead)
        ∙ addresses-delete_client n s
        ∙ ap (λ l. del l n.address) e
        ∙ del-kept_last kept n.address (Distinct-before kept n.address [] d)
        ∙ sym (if_false _ _ dead)
  ]
    where
      dropped : State os
      dropped = delete_client os n s

      shown : State os → List ℕ
      shown st = addresses st.clienthead
  cleanup_from-left (n ∷ m ∷ ns) kept s e d = elim (Bool-cases n.client.active) [
    | inl live ↦
        let regroup = append_assoc kept (n.address ∷ []) (addresses (m ∷ ns)) in
        ap shown (if_true s dropped live)
        ∙ cleanup_from-left (m ∷ ns) (kept ++ n.address ∷ []) s (e ∙ sym regroup) (rw regroup d)
        ∙ ap (λ k. left k (m ∷ ns)) (sym (if_true _ _ live))
    | inr dead ↦
        ap shown (if_false s dropped dead)
        ∙ cleanup_from-left (m ∷ ns) kept dropped
            (addresses-delete_client n s
              ∙ ap (λ l. del l n.address) e
              ∙ del-kept kept n.address m.address (addresses ns)
                  (Distinct-before kept n.address (addresses (m ∷ ns)) d))
            (Distinct-without kept n.address (addresses (m ∷ ns)) d)
        ∙ ap (λ k. left k (m ∷ ns)) (sym (if_false _ _ dead))
  ]
    where
      dropped : State os
      dropped = delete_client os n s

      shown : State os → List ℕ
      shown st = addresses (cleanup_from os (m ∷ ns) st).clienthead

  -- With distinct addresses, `cleanup_dead_clients` leaves the active clients in their order, and
  -- the last client: it stays though it is dead, unless no client is left before it.
  pub cleanup_dead_clients-left :
      (s : State os) (ns : List Node) (last : Node)
      → s.clienthead ≡ ns ++ last ∷ []
      → Distinct (addresses s.clienthead)
      → addresses (cleanup_dead_clients os s).clienthead ≡ (
          if last.client.active
          then alive ns ++ last.address ∷ []
          else last_dead (alive ns) last.address)
  unfolding cleanup_dead_clients
  cleanup_dead_clients-left s ns last e d =
      cleanup_from-left s.clienthead [] s refl d ∙ ap (left []) e ∙ left-last [] ns last
