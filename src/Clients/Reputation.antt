-- ===== src/Clients/Reputation.antt =====
-- client.c: the list of reputations, which nothing fills, and the two functions with no body.
use sillyweb.Base.{ℕ, List, [], ◌∷◌, ◌++◌}
use sillyweb.Client.{Client}

-- `struct client_reputation`
pub record ClientReputation : Type 0 where
  pub addr : ℕ
  pub resource_counter : ℕ

-- Behind the last one.
unfoldable pub add_new_client_rep_struct :
    List ClientReputation → ClientReputation → List ClientReputation
add_new_client_rep_struct rep_head newrep = rep_head ++ newrep ∷ []

unfoldable pub inc_client_rep_resource_counter : Client → Client
inc_client_rep_resource_counter c = c

unfoldable pub dec_client_rep_resource_counter : Client → Client
dec_client_rep_resource_counter c = c
