-- ===== src/Rdma/Setup/Peers.antt =====
-- litl2/src/rdma_client.c, the connections between clients: the side that connects.
use dal.Prelude.{ℕ, ◌≡◌, refl, ap, [], ◌∷◌, ◌++◌, pos}
use dal.Rdma.Setup.{
  create_event_channel, create_id, resolve_addr, addr_resolved, ack, resolve_route, route_resolved,
  create_comp_channel, create_cq, req_notify_cq, create_qp, read_metadata, create_sockaddr, Library,
  State, returns, Code, ◌▸◌, each, ignore, function, call_function,
}
use dal.Rdma.Setup.Attempt.{
  Plan, each_plan, needs, attempt, ▸-skip, attempt-append, attempt-each, Attempted, function_lem,
}
use dal.Rdma.Setup.Client.{
  need, try, connect_thread, thread_verbs, queue_verbs, connect_plan, connect_thread-plan,
}

module _ (lib : Library) where
  -- The body of the inner loop of `client_prepare_peer_connections`: all threads share the
  -- protection domain of the connection to the memory node.
  unfoldable pub prepare_peer_thread : (c i : ℕ) → Code
  prepare_peer_thread c i =
      need lib create_event_channel c i
      ▸ need lib create_id c i
      ▸ need lib resolve_addr c i
      ▸ need lib addr_resolved c i
      ▸ need lib ack c i
      ▸ need lib resolve_route c i
      ▸ need lib route_resolved c i
      ▸ need lib ack c i
      ▸ need lib create_comp_channel c i
      ▸ need lib create_cq c i
      ▸ need lib req_notify_cq c i
      ▸ need lib create_qp c i

  -- The result of `create_sockaddr` is not looked at.
  unfoldable pub client_prepare_peer_connections : (nclients nthreads : ℕ) → Code
  client_prepare_peer_connections nclients nthreads =
      function
        (each nclients (λ c. try lib create_sockaddr c 0 ▸ each nthreads (prepare_peer_thread c)))

  unfoldable pub client_connect_to_peers : (nclients nthreads : ℕ) → Code
  client_connect_to_peers nclients nthreads =
      function
        (each nclients (λ c. each nthreads (connect_thread lib c)) ▸ try lib read_metadata 0 0)

  unfoldable pub establish_rdma_peer_connections : (nclients nthreads : ℕ) → Code
  unfolding client_prepare_peer_connections client_connect_to_peers
  establish_rdma_peer_connections nclients nthreads = function (
      call_function (client_prepare_peer_connections nclients nthreads)
      ▸ call_function (client_connect_to_peers nclients nthreads))

abbrev pub prepare_peer_plan : (nthreads c : ℕ) → Plan
prepare_peer_plan nthreads c =
    (ignore, record { verb = create_sockaddr; client = c; thread = 0 })
    ∷ each_plan nthreads (needs (thread_verbs ++ queue_verbs) c)

abbrev pub connect_peers_plan : (nclients nthreads : ℕ) → Plan
connect_peers_plan nclients nthreads =
    each_plan nclients (λ c. each_plan nthreads (connect_plan c))
    ++ (ignore, record { verb = read_metadata; client = 0; thread = 0 }) ∷ []

module _ (lib : Library) where
  prepare_peer_thread-plan :
      (c i : ℕ)
      → prepare_peer_thread lib c i ≡ attempt lib (needs (thread_verbs ++ queue_verbs) c i)
  unfolding prepare_peer_thread attempt
  prepare_peer_thread-plan c i = rw (▸-skip lib (need lib create_qp c i)) refl

  prepare_peer-plan :
      (nthreads c : ℕ)
      → (try lib create_sockaddr c 0 ▸ each nthreads (prepare_peer_thread lib c))
        ≡ attempt lib (prepare_peer_plan nthreads c)
  unfolding attempt
  prepare_peer-plan nthreads c =
      rw
        (attempt-each lib nthreads (prepare_peer_thread lib c)
          (needs (thread_verbs ++ queue_verbs) c) (prepare_peer_thread-plan c))
        refl

  pub client_prepare_peer_connections-plan :
      (nclients nthreads : ℕ)
      → client_prepare_peer_connections lib nclients nthreads
        ≡ function (attempt lib (each_plan nclients (prepare_peer_plan nthreads)))
  unfolding client_prepare_peer_connections
  client_prepare_peer_connections-plan nclients nthreads =
      ap function
        (attempt-each lib nclients _ (prepare_peer_plan nthreads) (prepare_peer-plan nthreads))

  -- `client_prepare_peer_connections` prepares the threads of each peer in turn and returns 0 after all calls but those of `create_sockaddr` succeeded; or else it stops at the first failed call and returns -errno as that call left it.
  pub client_prepare_peer_connections_lem :
      (nclients nthreads : ℕ) (s : State)
      → Attempted lib
          (each_plan nclients (prepare_peer_plan nthreads))
          s
          (returns (pos 0))
          (client_prepare_peer_connections lib nclients nthreads s)
  unfolding client_prepare_peer_connections
  client_prepare_peer_connections_lem nclients nthreads s =
      rw (attempt-each lib nclients _ (prepare_peer_plan nthreads) (prepare_peer-plan nthreads))
        (function_lem lib (each_plan nclients (prepare_peer_plan nthreads)) s)

  connect_peers-plan :
      (nclients nthreads : ℕ)
      → (each nclients (λ c. each nthreads (connect_thread lib c)) ▸ try lib read_metadata 0 0)
        ≡ attempt lib (connect_peers_plan nclients nthreads)
  unfolding attempt
  connect_peers-plan nclients nthreads =
      rw
        (
          attempt-append lib (each_plan nclients (λ c. each_plan nthreads (connect_plan c))) _,
          attempt-each lib nclients (λ c. each nthreads (connect_thread lib c))
              (λ c. each_plan nthreads (connect_plan c))
              (λ c.
                attempt-each lib nthreads (connect_thread lib c) (connect_plan c)
                  (connect_thread-plan lib c)),
          ▸-skip lib (try lib read_metadata 0 0),
        )
        refl

  pub client_connect_to_peers-plan :
      (nclients nthreads : ℕ)
      → client_connect_to_peers lib nclients nthreads
        ≡ function (attempt lib (connect_peers_plan nclients nthreads))
  unfolding client_connect_to_peers
  client_connect_to_peers-plan nclients nthreads =
      ap function (connect_peers-plan nclients nthreads)

  -- `client_connect_to_peers` connects each thread to each peer, peer by peer, and returns 0 after all calls but the read of the metadata succeeded; or else it stops at the first failed call and returns -errno as that call left it.
  pub client_connect_to_peers_lem :
      (nclients nthreads : ℕ) (s : State)
      → Attempted lib
          (connect_peers_plan nclients nthreads)
          s
          (returns (pos 0))
          (client_connect_to_peers lib nclients nthreads s)
  client_connect_to_peers_lem nclients nthreads s =
      rw (client_connect_to_peers-plan nclients nthreads)
        (function_lem lib (connect_peers_plan nclients nthreads) s)
