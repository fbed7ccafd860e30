-- ===== src/Clients/Kept.antt =====
-- What `cleanup_dead_clients` keeps of the list: distinct addresses, and what is true of every
-- client and is not undone by `clear_client`.
use sillyweb.Base.{
  ℕ, ◌≢◌, inl, inr, Bool, true, false, List, [], ◌∷◌, All, ◌==◌, if◌then◌else◌, Bool-cases,
}
use sillyweb.Platform.{Platform}
use sillyweb.Transport.{transport_close}
use sillyweb.Client.{Client, clear_client}
use sillyweb.Clients.{
  Node, State, del_scan, del_client_struct, write, delete_client, cleanup_from,
  cleanup_dead_clients,
}
use sillyweb.Clients.Cleanup.{addresses, Distinct, scan, del, addresses-delete_client}

scan-All : (P : ℕ → Type 0) (a : ℕ) (l : List ℕ) → All P l → All P (scan a l)
unfolding scan
scan-All P a [] h = tt
scan-All P a (x ∷ []) h = h
scan-All P a (x ∷ y ∷ l) (hx, (hy, hl)) = elim (Bool-cases (x == a)) [
  | inl same ↦ rw (scan, same) (hy, hl)
  | inr other ↦ rw (scan, other) (hx, scan-All P a (y ∷ l) (hy, hl))
]

scan-Distinct : (a : ℕ) (l : List ℕ) → Distinct l → Distinct (scan a l)
unfolding scan
scan-Distinct a [] h = tt
scan-Distinct a (x ∷ []) h = h
scan-Distinct a (x ∷ y ∷ l) (hx, hl) = elim (Bool-cases (x == a)) [
  | inl same ↦ rw (scan, same) hl
  | inr other ↦ rw (scan, other) (scan-All (λ b. b ≢ x) a (y ∷ l) hx, scan-Distinct a (y ∷ l) hl)
]

del-Distinct : (l : List ℕ) (a : ℕ) → Distinct l → Distinct (del l a)
unfolding del
del-Distinct [] a h = tt
del-Distinct (x ∷ l) a h = elim (Bool-cases (a == x)) [
  | inl same ↦ rw (del, same) h.1
  | inr other ↦ rw (del, other) (scan-Distinct a (x ∷ l) h)
]

module _ (P : Client → Type 0) where
  abbrev OfAll : List Node → Type 0
  OfAll = All λ (n : Node). P n.client

  del_scan-All : (a : ℕ) (l : List Node) → OfAll l → OfAll (del_scan a l)
  unfolding del_scan
  del_scan-All a [] h = tt
  del_scan-All a (x ∷ []) h = h
  del_scan-All a (x ∷ y ∷ l) (hx, (hy, hl)) = elim (Bool-cases (x.address == a)) [
    | inl same ↦ rw (del_scan, same) (hy, hl)
    | inr other ↦ rw (del_scan, other) (hx, del_scan-All a (y ∷ l) (hy, hl))
  ]

  del_client_struct-All : (l : List Node) (a : ℕ) → OfAll l → OfAll (del_client_struct l a)
  unfolding del_client_struct
  del_client_struct-All [] a h = tt
  del_client_struct-All (x ∷ l) a h = elim (Bool-cases (a == x.address)) [
    | inl same ↦ rw (del_client_struct, same) h.1
    | inr other ↦ rw (del_client_struct, other) (del_scan-All a (x ∷ l) h)
  ]

  write-All : (a : ℕ) (c : Client) (l : List Node) → P c → OfAll l → OfAll (write a (λ _. c) l)
  unfolding write
  write-All a c [] new h = tt
  write-All a c (x ∷ l) new (hx, hl) = elim (Bool-cases (x.address == a)) [
    | inl same ↦ rw (write, same) (new, write-All a c l new hl)
    | inr other ↦ rw (write, other) (hx, write-All a c l new hl)
  ]

-- What becomes of a client in `delete_client`.
abbrev Cleared : (os : Platform) → Client → os.World → Client
Cleared os c w = (clear_client os (record c { active = false }) w).0

module _ (os : Platform) where
  either_state :
      (Q : State os → Type 0) (b : Bool) (s t : State os) → Q s → Q t → Q (if b then s else t)
  either_state Q true s t hs ht = hs
  either_state Q false s t hs ht = ht

  cleanup_from-Distinct :
      (ns : List Node) (s : State os)
      → Distinct (addresses s.clienthead)
      → Distinct (addresses (cleanup_from os ns s).clienthead)
  unfolding cleanup_from
  cleanup_from-Distinct [] s h = h
  cleanup_from-Distinct (n ∷ ns) s h =
      cleanup_from-Distinct ns (if n.client.active then s else delete_client os n s) (
        either_state (λ (t : State os). Distinct (addresses t.clienthead)) n.client.active s
          (delete_client os n s) h
          (rw (addresses-delete_client os n s) (del-Distinct (addresses s.clienthead) n.address h)))

  pub cleanup_dead_clients-Distinct :
      (s : State os)
      → Distinct (addresses s.clienthead)
      → Distinct (addresses (cleanup_dead_clients os s).clienthead)
  unfolding cleanup_dead_clients
  cleanup_dead_clients-Distinct s h = cleanup_from-Distinct s.clienthead s h

  module _ (P : Client → Type 0)
      (clears : (c : Client) (w : os.World) → P c → P (Cleared os c w)) where
    delete_client-All :
        (n : Node) (s : State os)
        → P n.client
        → OfAll P s.clienthead
        → OfAll P (delete_client os n s).clienthead
    unfolding delete_client
    delete_client-All n s hn h =
        let w = transport_close os n.client.server.transport n.client s.world in
        let c = (clear_client os (record n.client { active = false }) w).0 in
        del_client_struct-All P (write n.address (λ _. c) s.clienthead) n.address
          (write-All P n.address c s.clienthead (clears n.client w hn) h)

    cleanup_from-All :
        (ns : List Node) (s : State os)
        → OfAll P ns
        → OfAll P s.clienthead
        → OfAll P (cleanup_from os ns s).clienthead
    unfolding cleanup_from
    cleanup_from-All [] s hns h = h
    cleanup_from-All (n ∷ ns) s (hn, hns) h =
        cleanup_from-All ns (if n.client.active then s else delete_client os n s) hns (
          either_state (λ (t : State os). OfAll P t.clienthead) n.client.active s
            (delete_client os n s) h (delete_client-All n s hn h))

    pub cleanup_dead_clients-All :
        (s : State os) → OfAll P s.clienthead → OfAll P (cleanup_dead_clients os s).clienthead
    unfolding cleanup_dead_clients
    cleanup_dead_clients-All s h = cleanup_from-All s.clienthead s h h
