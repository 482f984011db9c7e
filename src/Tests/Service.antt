-- ===== src/Tests/Service.antt =====
-- The lock service with two clients.
use dal.Prelude.{ℕ, ◌≡◌, ◌≢◌, refl, false, some, none, List, [], ◌∷◌, arith}
use dal.Interleave.{turn, run}
use dal.Posix.{owner_cell}
use dal.Tcp.Service.{
  Choice, client_acts, server_acts, hang_up, server_exits, inside, client_step, receive,
  server_step, step,
}
use dal.Tcp.Safety.{reached, clients_exclusive, hang_up-frees}

-- Client 0 gets the lock, and client 1 has asked for it.
abbrev served_once : List (ℕ × Choice)
served_once =
    (0, client_acts)
    ∷ (1, client_acts)
    ∷ (0, server_acts)
    ∷ (0, server_acts)
    ∷ (0, server_acts)
    ∷ (0, server_acts)
    ∷ (1, server_acts)
    ∷ (1, server_acts)
    ∷ (1, server_acts)
    ∷ (0, client_acts)
    ∷ []

served_once_0 : ((reached owner_cell served_once).pc 0).client ≡ inside
unfolding run turn step client_step server_step receive
served_once_0 = refl

served_once_up : (reached owner_cell served_once).mem.gone ≡ false
unfolding run turn step client_step server_step receive
served_once_up = refl

-- Both clients have asked for the lock when the server process exits.
abbrev unserved : List (ℕ × Choice)
unserved =
    (0, client_acts)
    ∷ (1, client_acts)
    ∷ (0, server_exits)
    ∷ (0, client_acts)
    ∷ (1, client_acts)
    ∷ []

unserved_both :
    (((reached owner_cell unserved).pc 0).client ≡ inside)
    × (((reached owner_cell unserved).pc 1).client ≡ inside)
unfolding run turn step client_step server_step receive
unserved_both = (refl, refl)

clients_exclusive_example :
    ((reached owner_cell served_once).mem.mutex ≡ some 0)
    × (((reached owner_cell served_once).pc 1).client ≢ inside)
clients_exclusive_example =
    clients_exclusive owner_cell served_once served_once_up 0 1 (omega arith) served_once_0

hang_up-frees_example :
    (run
      (step owner_cell)
      ((0, hang_up) ∷ (0, server_acts) ∷ (0, server_acts) ∷ (0, server_acts) ∷ [])
      (reached owner_cell served_once)).mem.mutex
    ≡ none
hang_up-frees_example = hang_up-frees owner_cell served_once served_once_up 0 served_once_0
