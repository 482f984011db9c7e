-- ===== src/Rdma/Setup/Client.antt =====
-- litl2/src/rdma_client.c, the connections to the memory node.
use dal.Prelude.{
  ℕ, ◌≡◌, refl, ap, List, [], ◌∷◌, ◌++◌, ◌==◌, if◌then◌else◌, pos, inl, inr, Bool-cases,
}
use dal.Rdma.Setup.{
  Verb, create_event_channel, create_id, resolve_addr, addr_resolved, ack, resolve_route,
  route_resolved, alloc_pd, create_comp_channel, create_cq, req_notify_cq, create_qp, alloc_data,
  register_cas, register_data, register_unlock, connect, established, read_metadata, write_metadata,
  create_sockaddr, Library, State, returns, Code, ◌▸◌, skip, each, return_errno, ignore, checked,
  function, call_function,
}
use dal.Rdma.Setup.Attempt.{
  Plan, each_plan, needs, attempt, ▸-skip, attempt-append, attempt-each, Attempted, function_lem,
}

module _ (lib : Library) where
  -- if (verb(...)) return -errno;
  abbrev pub need : Verb → (c t : ℕ) → Code
  need v c t = checked lib return_errno (record { verb = v; client = c; thread = t })

  abbrev pub try : Verb → (c t : ℕ) → Code
  try v c t = checked lib ignore (record { verb = v; client = c; thread = t })

  -- The body of the loop of `client_prepare_server_connection`; the client is 0 in its calls.
  unfoldable pub prepare_thread : ℕ → Code
  prepare_thread i =
      need create_event_channel 0 i
      ▸ need create_id 0 i
      ▸ need resolve_addr 0 i
      ▸ need addr_resolved 0 i
      ▸ need ack 0 i
      ▸ need resolve_route 0 i
      ▸ need route_resolved 0 i
      ▸ need ack 0 i
      ▸ (if i == 0 then need alloc_pd 0 i else skip)
      ▸ need create_comp_channel 0 i
      ▸ need create_cq 0 i
      ▸ need req_notify_cq 0 i
      ▸ need create_qp 0 i

  unfoldable pub client_prepare_server_connection : (nthreads : ℕ) → Code
  client_prepare_server_connection nthreads = function (each nthreads prepare_thread)

  -- A peer thread's part in `client_connect_to_server` and `client_connect_to_peers`.
  unfoldable pub connect_thread : (c i : ℕ) → Code
  connect_thread c i = need connect c i ▸ need established c i ▸ need ack c i

  -- The metadata files are read and written without a look at the result.
  unfoldable pub client_connect_to_server : (nthreads : ℕ) → Code
  unfolding connect_thread
  client_connect_to_server nthreads = function (
      need alloc_data 0 0
      ▸ need register_cas 0 0
      ▸ need register_data 0 0
      ▸ need register_unlock 0 0
      ▸ each nthreads (connect_thread 0)
      ▸ try read_metadata 0 0
      ▸ try write_metadata 0 0)

  unfoldable pub establish_rdma_mn_connection : (nthreads : ℕ) → Code
  unfolding client_prepare_server_connection client_connect_to_server
  establish_rdma_mn_connection nthreads = function (
      need create_sockaddr 0 0
      ▸ call_function (client_prepare_server_connection nthreads)
      ▸ call_function (client_connect_to_server nthreads))

-- What a thread's preparation needs, and its connection.
abbrev pub thread_verbs : List Verb
thread_verbs =
    create_event_channel ∷ create_id ∷ resolve_addr ∷ addr_resolved ∷ ack ∷ resolve_route
    ∷ route_resolved ∷ ack ∷ []

abbrev pub queue_verbs : List Verb
queue_verbs = create_comp_channel ∷ create_cq ∷ req_notify_cq ∷ create_qp ∷ []

abbrev pub prepare_plan : ℕ → Plan
prepare_plan i =
    if i == 0
    then needs (thread_verbs ++ alloc_pd ∷ queue_verbs) 0 i
    else needs (thread_verbs ++ queue_verbs) 0 i

abbrev pub connect_plan : (c i : ℕ) → Plan
connect_plan c i = needs (connect ∷ established ∷ ack ∷ []) c i

abbrev pub file_plan : Plan
file_plan =
    (ignore, record { verb = read_metadata; client = 0; thread = 0 })
    ∷ (ignore, record { verb = write_metadata; client = 0; thread = 0 })
    ∷ []

abbrev pub connect_server_plan : ℕ → Plan
connect_server_plan nthreads =
    needs (alloc_data ∷ register_cas ∷ register_data ∷ register_unlock ∷ []) 0 0
    ++ (each_plan nthreads (connect_plan 0) ++ file_plan)

module _ (lib : Library) where
  prepare_thread-plan : (i : ℕ) → prepare_thread lib i ≡ attempt lib (prepare_plan i)
  unfolding prepare_thread attempt
  prepare_thread-plan i = elim (Bool-cases (i == 0)) [
    | inl z ↦ rw (z, ▸-skip lib (need lib create_qp 0 i)) refl
    | inr z ↦ rw (z, ▸-skip lib (need lib create_qp 0 i)) refl
  ]

  pub connect_thread-plan : (c i : ℕ) → connect_thread lib c i ≡ attempt lib (connect_plan c i)
  unfolding connect_thread attempt
  connect_thread-plan c i = rw (▸-skip lib (need lib ack c i)) refl

  pub client_prepare_server_connection-plan :
      (nthreads : ℕ)
      → client_prepare_server_connection lib nthreads
        ≡ function (attempt lib (each_plan nthreads prepare_plan))
  unfolding client_prepare_server_connection
  client_prepare_server_connection-plan nthreads =
      ap function (attempt-each lib nthreads (prepare_thread lib) prepare_plan prepare_thread-plan)

  -- `client_prepare_server_connection` prepares the threads in turn, the protection domain with the first, and returns 0 after all calls succeeded; or else it stops at the first failed call and returns -errno as that call left it, which is 0 where the call left errno 0.
  pub client_prepare_server_connection_lem :
      (nthreads : ℕ) (s : State)
      → Attempted lib
          (each_plan nthreads prepare_plan)
          s
          (returns (pos 0))
          (client_prepare_server_connection lib nthreads s)
  client_prepare_server_connection_lem nthreads s =
      rw (client_prepare_server_connection-plan nthreads)
        (function_lem lib (each_plan nthreads prepare_plan) s)

  connect_tail :
      (nthreads : ℕ)
      → (each nthreads (connect_thread lib 0)
          ▸ try lib read_metadata 0 0
          ▸ try lib write_metadata 0 0)
        ≡ attempt lib (each_plan nthreads (connect_plan 0) ++ file_plan)
  unfolding attempt
  connect_tail nthreads =
      rw
        (
          attempt-append lib (each_plan nthreads (connect_plan 0)) file_plan,
          attempt-each lib nthreads (connect_thread lib 0) (connect_plan 0) (connect_thread-plan 0),
          ▸-skip lib (try lib write_metadata 0 0),
        )
        refl

  pub connect_server-plan :
      (nthreads : ℕ)
      → client_connect_to_server lib nthreads
        ≡ function (attempt lib (connect_server_plan nthreads))
  unfolding client_connect_to_server attempt
  connect_server-plan nthreads =
      ap
        (λ g. function (
          need lib alloc_data 0 0
          ▸ need lib register_cas 0 0
          ▸ need lib register_data 0 0
          ▸ need lib register_unlock 0 0
          ▸ g))
        (connect_tail nthreads)

  -- `client_connect_to_server` registers its memory, connects the threads in turn and reads and writes the metadata files, and returns 0 after all calls but those on the files succeeded; or else it stops at the first failed call and returns -errno as that call left it, which is 0 where the call left errno 0.
  pub client_connect_to_server_lem :
      (nthreads : ℕ) (s : State)
      → Attempted lib
          (connect_server_plan nthreads)
          s
          (returns (pos 0))
          (client_connect_to_server lib nthreads s)
  client_connect_to_server_lem nthreads s =
      rw (connect_server-plan nthreads) (function_lem lib (connect_server_plan nthreads) s)
