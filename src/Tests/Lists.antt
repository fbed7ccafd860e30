-- ===== src/Tests/Lists.antt =====
-- The list of clients, with a client that is alive and dead ones.
use sillyweb.Base.{ℕ, ◌≡◌, refl, false, [], ◌∷◌, ◌++◌, if◌then◌else◌, arith}
use sillyweb.Clients.{Node, State, add_new_client_struct, del_client_struct, cleanup_dead_clients}
use sillyweb.Clients.Removal.{del_client_struct-exact}
use sillyweb.Clients.Cleanup.{addresses, alive, last_dead, cleanup_dead_clients-left}
use sillyweb.Tests.Env.{wire, guest}

abbrev alive_at : ℕ → Node
alive_at a = record { address = a; client = guest [] }

abbrev dead_at : ℕ → Node
dead_at a = record { address = a; client = record (guest []) { active = false } }

del_client_struct-exact_example :
    (del_client_struct (dead_at 2 ∷ []) 2 ≡ [])
    × (del_client_struct ((alive_at 1 ∷ []) ++ (dead_at 2 ∷ alive_at 3 ∷ [])) 2
        ≡ (alive_at 1 ∷ []) ++ alive_at 3 ∷ [])
    × (del_client_struct (add_new_client_struct (alive_at 1 ∷ []) (dead_at 2)) 2
        ≡ add_new_client_struct (alive_at 1 ∷ []) (dead_at 2))
del_client_struct-exact_example =
    del_client_struct-exact (alive_at 1) [] (dead_at 2) (alive_at 3) [] (omega arith)

abbrev crowd : State (wire (λ t. t))
crowd = record {
  clienthead = dead_at 1 ∷ alive_at 2 ∷ dead_at 3 ∷ dead_at 4 ∷ [];
  world = ([], []);
}

cleanup_dead_clients-left_example :
    addresses (cleanup_dead_clients (wire (λ t. t)) crowd).clienthead ≡ (
      if (dead_at 4).client.active
      then alive (dead_at 1 ∷ alive_at 2 ∷ dead_at 3 ∷ []) ++ 4 ∷ []
      else last_dead (alive (dead_at 1 ∷ alive_at 2 ∷ dead_at 3 ∷ [])) 4)
cleanup_dead_clients-left_example =
    cleanup_dead_clients-left (wire (λ t. t)) crowd (dead_at 1 ∷ alive_at 2 ∷ dead_at 3 ∷ [])
      (dead_at 4) refl (omega arith)
