-- ===== src/Serving/Reach.antt =====
-- The service as a whole: the turns of the service thread and the rounds of the listening thread,
-- in any order.
use mathlib.Core.Path.{subst}
use sillyweb.Base.{ℕ, ◌≡◌, ◌≢◌, refl, inl, inr, List, [], ◌∷◌, ◌++◌, All, Option, none, some}
use sillyweb.Memory.{Allocator}
use sillyweb.Platform.{Platform}
use sillyweb.Service.{Vhost, Server}
use sillyweb.Client.{Client, clear_client}
use sillyweb.Clients.{Node, State, cleanup_dead_clients}
use sillyweb.Clients.Cleanup.{addresses, Distinct}
use sillyweb.Clients.Kept.{cleanup_dead_clients-Distinct, cleanup_dead_clients-All}
use sillyweb.Request.Parse.{AnyVhost}
use sillyweb.Listening.{Network, server_listening_round}
use sillyweb.Listening.Arrivals.{Joined, server_listening_round-Joined}
use sillyweb.Serving.{Leftovers, service_clients}
use sillyweb.Serving.Answers.{IsSoundCode}
use sillyweb.Serving.Turns.{Kept, KeptTurn, service_clients-Kept}

abbrev pub HasSoundCode : Node → Type 0
HasSoundCode n = IsSoundCode n.client.result_code

-- The addresses of the clients are distinct, and each client has no result code yet or one of which
-- the table has a text.
pub record IsSoundList (ns : List Node) : Type 0 where
  pub distinct : Distinct (addresses ns)
  pub sound : All HasSoundCode ns

addresses-Kept : (ns ms : List Node) → Kept ns ms → addresses ms ≡ addresses ns
addresses-Kept [] [] h = refl
addresses-Kept [] (m ∷ ms) h = elim h [ ]
addresses-Kept (n ∷ ns) [] h = elim h [ ]
addresses-Kept (n ∷ ns) (m ∷ ms) (h, h', hs) = rw (h, addresses-Kept ns ms hs) refl

sound-Kept : (ns ms : List Node) → Kept ns ms → All HasSoundCode ns → All HasSoundCode ms
sound-Kept [] [] h k = tt
sound-Kept [] (m ∷ ms) h k = elim h [ ]
sound-Kept (n ∷ ns) [] h k = elim h [ ]
sound-Kept (n ∷ ns) (m ∷ ms) (h, h', hs) (k, ks) = (h' k, sound-Kept ns ms hs ks)

IsSoundList-Kept : (ns ms : List Node) → Kept ns ms → IsSoundList ns → IsSoundList ms
IsSoundList-Kept ns ms h old = record {
  distinct = rw (addresses-Kept ns ms h) old.distinct;
  sound = sound-Kept ns ms h old.sound;
}

-- An address that no node of the list has, if there is one.
abbrev pub IsFresh : Option ℕ → List Node → Type 0
IsFresh none ns = Unit
IsFresh (some a) ns = All (λ b. a ≢ b) (addresses ns)

Distinct-behind :
    (ns : List Node) (n : Node)
    → All (λ b. n.address ≢ b) (addresses ns)
    → Distinct (addresses ns)
    → Distinct (addresses (ns ++ n ∷ []))
Distinct-behind [] n h d = (tt, tt)
Distinct-behind (m ∷ ns) n (h, hs) (d, ds) = (apart ns d, Distinct-behind ns n hs ds)
  where
    apart :
        (ms : List Node)
        → All (λ b. b ≢ m.address) (addresses ms)
        → All (λ b. b ≢ m.address) (addresses (ms ++ n ∷ []))
    apart [] k = (h, tt)
    apart (l ∷ ms) (k, ks) = (k, apart ms ks)

All-behind :
    (ns : List Node) (n : Node)
    → HasSoundCode n
    → All HasSoundCode ns
    → All HasSoundCode (ns ++ n ∷ [])
All-behind [] n h k = (h, tt)
All-behind (m ∷ ns) n h (k, ks) = (k, All-behind ns n h ks)

IsSoundList-Joined :
    (vhosts : List Vhost) (servers : List Server) (block : Option ℕ) (ns ms : List Node)
    → IsFresh block ns
    → Joined vhosts servers block ns ms
    → IsSoundList ns
    → IsSoundList ms
IsSoundList-Joined vhosts servers block ns ms fresh (inl same) old = rw same old
IsSoundList-Joined vhosts servers block ns ms fresh (inr (n, grown, new)) old = rw grown (record {
  distinct = Distinct-behind ns n (rw new.has_block at fresh) old.distinct;
  sound = All-behind ns n (rw new.no_code refl) old.sound;
})

module _ (os : Platform) (net : Network os.World) (get_vhost : AnyVhost) (vhosts : List Vhost)
    (servers : List Server) where
  open os use {World}

  -- A turn of the thread `poolid`; a round of the listening thread, in which `calloc` gives a block
  -- that is not in the list, or NULL; a change of what is outside the program. Memory may run out
  -- at any step.
  pub data Step (s : State os) : State os → Type 0 where
    turn :
        {s' : State os} (mem : Allocator) (mess : Leftovers) (poolid : ℕ)
        → service_clients os mem get_vhost mess poolid s ≡ some s'
        → Step s s'
    round :
        {s' : State os} (mem : Allocator) (block : Option ℕ)
        → IsFresh block s.clienthead
        → server_listening_round os net mem vhosts servers block s ≡ some s'
        → Step s s'
    outside : (w : World) → Step s (record s { world = w })

  pub data Reach (s : State os) : State os → Type 0 where
    here : Reach s s
    next : {t u : State os} → Reach s t → Step t u → Reach s u

  cleanup_dead_clients-IsSoundList :
      (s : State os) → IsSoundList s.clienthead → IsSoundList (cleanup_dead_clients os s).clienthead
  unfolding clear_client
  cleanup_dead_clients-IsSoundList s old = record {
    distinct = cleanup_dead_clients-Distinct os s old.distinct;
    sound =
        cleanup_dead_clients-All os (λ (c : Client). IsSoundCode c.result_code) (λ c w h. h) s
          old.sound;
  }

  Step-IsSoundList :
      {s t : State os} → Step s t → IsSoundList s.clienthead → IsSoundList t.clienthead
  Step-IsSoundList {s} {t} (turn mem mess poolid e) old =
      IsSoundList-Kept s.clienthead t.clienthead
        (subst (KeptTurn os mem get_vhost mess s) e
          (service_clients-Kept os mem get_vhost mess poolid s))
        old
  Step-IsSoundList {s} {t} (round mem block fresh e) old =
      elim (server_listening_round-Joined os net mem vhosts servers block s t e) [
        | inl (_, cleaned) ↦ rw cleaned (cleanup_dead_clients-IsSoundList _ old)
        | inr (_, joined) ↦
            IsSoundList-Joined vhosts servers block s.clienthead t.clienthead fresh joined old
      ]
  Step-IsSoundList (outside w) old = old

  Reach-IsSoundList :
      {s t : State os} → Reach s t → IsSoundList s.clienthead → IsSoundList t.clienthead
  Reach-IsSoundList here old = old
  Reach-IsSoundList (next r h) old = Step-IsSoundList h (Reach-IsSoundList r old)

  -- From a list with no clients, whatever the turns of the service thread and the rounds of the
  -- listening thread, in whatever order, and whatever the system calls report: no two clients of
  -- the list have the same address, and the result code of each is 0 or one of which the table has
  -- a text.
  pub service-IsSoundList :
      (s t : State os) → s.clienthead ≡ [] → Reach s t → IsSoundList t.clienthead
  service-IsSoundList s t empty r =
      Reach-IsSoundList r (rw empty (record { distinct = tt; sound = tt }))
