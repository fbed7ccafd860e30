-- ===== src/Start/Threads.antt =====
-- main.c: the end of `main`, from the start of the threads on, and the handlers of the table of
-- methods. `SERVICE_DATA.active` is set behind the start of the threads, and is never cleared.
use sillyweb.Base.{
  ℕ, zero, suc, ◌+◌, ◌≡◌, sym, ap, ◌∙◌, List, [], ◌∷◌, ◌++◌, append-nil, append_assoc, Option,
}
use sillyweb.Platform.{Platform}
use sillyweb.Service.{Handler, get_request_handler, null_request_handler}
use sillyweb.Listening.{num_cpus}
use sillyweb.Log.Output.{Journal, LogState, heartbeat_rounds}

-- `pthread_create` of the two kinds of threads; its result is dropped.
pub record Threads (World : Type 0) : Type 0 where
  pub create_listening : World → World
  pub create_service : ℕ → World → World

-- The loop over the service threads, from the one with the number `i` on.
service_threads : {World : Type 0} → Threads World → ℕ → ℕ → World → World
service_threads threads zero i w = w
service_threads threads (suc n) i w = service_threads threads n (i + 1) (threads.create_service i w)

unfoldable pub start_threads : {World : Type 0} → Threads World → World → World
unfolding service_threads
start_threads threads w = service_threads threads num_cpus 0 (threads.create_listening w)

-- The threads, and so many rounds of the loop that follows.
unfoldable pub run_threads :
    (os : Platform)
    → Journal os.World
    → Threads os.World
    → ℕ
    → LogState os.World
    → Option (LogState os.World)
unfolding start_threads heartbeat_rounds
run_threads os journal threads n s =
    heartbeat_rounds os journal n (record s { world = start_threads threads s.world })

-- What a handler returns; nothing calls it. `post_request_handler`, which returns 0, stands in no
-- entry.
unfoldable pub request_handler : Handler → ℕ
request_handler get_request_handler = 1
request_handler null_request_handler = 1

-- The numbers from `i` on.
numbers : ℕ → ℕ → List ℕ
numbers zero i = []
numbers (suc n) i = i ∷ numbers n (i + 1)

module _ {World : Type 0} (threads : Threads World) (pools : World → List ℕ)
    (creates : (i : ℕ) → (w : World) → pools (threads.create_service i w) ≡ pools w ++ i ∷ []) where
  service_threads-numbers :
      (n i : ℕ) (w : World) → pools (service_threads threads n i w) ≡ pools w ++ numbers n i
  unfolding service_threads numbers
  service_threads-numbers zero i w = sym (append-nil (pools w))
  service_threads-numbers (suc n) i w =
      service_threads-numbers n (i + 1) (threads.create_service i w)
      ∙ ap (λ t. t ++ numbers n (i + 1)) (creates i w)
      ∙ append_assoc (pools w) (i ∷ []) (numbers n (i + 1))

  -- One service thread is started for each number below `num_cpus`, the numbers that
  -- `create_new_client` gives to the clients, in their order.
  start_threads-numbers :
      (w : World)
      → pools (start_threads threads w) ≡ pools (threads.create_listening w) ++ numbers num_cpus 0
  unfolding start_threads
  start_threads-numbers w = service_threads-numbers num_cpus 0 (threads.create_listening w)
