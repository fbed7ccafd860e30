-- ===== src/Clients.antt =====
-- The list of clients: client.c's insertion and removal, `delete_client`, and
-- `cleanup_dead_clients` of main.c. `pthread_mutex` calls are left out: each function runs by
-- itself.
pub mod Removal
pub mod Cleanup
pub mod Kept
pub mod Reputation
use sillyweb.Base.{
  ℕ, Bool, true, false, List, [], ◌∷◌, ◌++◌, Option, none, some, ◌==◌, if◌then◌else◌,
}
use sillyweb.Platform.{Platform}
use sillyweb.Transport.{transport_close}
use sillyweb.Client.{Client, clear_client}

-- A node of the list, with its address. Removed nodes are not freed.
pub record Node : Type 0 where
  pub address : ℕ
  pub client : Client

-- Behind the last node.
unfoldable pub add_new_client_struct : List Node → Node → List Node
add_new_client_struct clienthead newclient = clienthead ++ newclient ∷ []

-- The loop `for(ptr = clienthead; ptr->next_client; ptr = ptr->next_client)`, which ends at the
-- last node and does not look at it.
unfoldable pub del_scan : ℕ → List Node → List Node
del_scan client [] = []
del_scan client (ptr ∷ []) = ptr ∷ []
del_scan client (ptr ∷ next ∷ rest) =
    let others = del_scan client (next ∷ rest) in
    if ptr.address == client then next ∷ rest else ptr ∷ others

unfoldable pub del_client_struct : List Node → ℕ → List Node
unfolding del_scan
del_client_struct [] client = []
del_client_struct (head ∷ rest) client =
    if client == head.address then rest else del_scan client (head ∷ rest)

-- A change of the structure at an address.
unfoldable pub write : ℕ → (Client → Client) → List Node → List Node
write address f [] = []
write address f (n ∷ ns) =
    (if n.address == address then record n { client = f n.client } else n) ∷ write address f ns

-- `clienthead`, and what is outside the program.
pub record State (os : Platform) : Type 0 where
  pub clienthead : List Node
  pub world : os.World

module _ (os : Platform) where
  open os use {World}

  -- `delete_client`: the transport is closed, the structure is cleared, the node is removed.
  unfoldable pub delete_client : Node → State os → State os
  unfolding del_client_struct write
  delete_client n s =
      let closed = transport_close os n.client.server.transport n.client s.world in
      let (cleared, w) = clear_client os (deactivate n.client) closed in
      record {
        clienthead = del_client_struct (write n.address (λ _. cleared) s.clienthead) n.address;
        world = w;
      }
    where
      deactivate : Client → Client
      deactivate c = record c { active = false }

  -- The loop over the nodes from some node on. The node behind is read from the removed node, which
  -- keeps its pointer, so the loop goes through the nodes that there were at the beginning.
  unfoldable pub cleanup_from : List Node → State os → State os
  unfolding delete_client
  cleanup_from [] s = s
  cleanup_from (n ∷ ns) s = cleanup_from ns (if n.client.active then s else delete_client n s)

  unfoldable pub cleanup_dead_clients : State os → State os
  unfolding cleanup_from
  cleanup_dead_clients s = cleanup_from s.clienthead s
