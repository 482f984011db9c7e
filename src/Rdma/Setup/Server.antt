-- ===== src/Rdma/Setup/Server.antt =====
-- `start_rdma_server` and `_shutdown` of litl2/src/rdma_server.c, and the listener of
-- litl2/src/rdma_client.c. The server's regions, its logging and `prep_rdma_conn`, which no
-- operation uses, are left out, and so are unchecked allocations.
use dal.Prelude.{
  ℕ, zero, suc, ◌<◌, ◌≡◌, ◌⊎◌, refl, ◌==◌, ◌&&◌, not, Bool, true, false, if◌then◌else◌, pos, neg,
  arith, inl, inr, Bool-cases,
}
use dal.Rdma.Setup.{
  Verb, bind, listen, create_event_channel, create_id, connect_request, client_id_set, alloc_pd,
  register_rlock, register_data, register_shutdown, write_metadata, create_comp_channel, create_cq,
  req_notify_cq, create_qp, ack, accept, established, disconnect, destroy_qp, destroy_comp_channel,
  dealloc_pd, destroy_id, Call, Reply, ok, failed, Library, State, Flow, go_on, returns, Code, ◌▸◌,
  skip, each, OnFailure, return_errno, return_einval, exit_failure, give_up, checked, made,
  function,
}
use dal.Rdma.Setup.Client.{need, try}

abbrev pub succeeded : Reply → Bool
succeeded ok = true
succeeded (failed e) = false

abbrev pub first_call : Verb → Call
first_call v = record { verb = v; client = 0; thread = 0 }

-- One attempt to bind, and whether it succeeds.
abbrev pub bind_once : Library → State → State
bind_once lib s = made (first_call bind) (lib s.calls (first_call bind)) s

abbrev pub binds : Library → State → Bool
binds lib s = succeeded (lib s.calls (first_call bind))

-- `while (rdma_bind_addr(...) && retry < limit) retry++;` with `limit - retry` left, and what
-- follows: `retry >= limit` gives up, whatever the last attempt said.
unfoldable pub bind_loop : Library → OnFailure → (left : ℕ) → Code
bind_loop lib h zero s = (give_up h (bind_once lib s).errno, bind_once lib s)
bind_loop lib h (suc left) s =
    let rest = bind_loop lib h left (bind_once lib s) in
    if binds lib s then (go_on, bind_once lib s) else rest

-- The state after a number of attempts.
unfoldable pub after_binds : Library → ℕ → State → State
after_binds lib zero s = s
after_binds lib (suc k) s = after_binds lib k (bind_once lib s)

-- Whether the first attempts all fail.
unfoldable pub all_fail : Library → ℕ → State → Bool
all_fail lib zero s = true
all_fail lib (suc k) s = not (binds lib s) && all_fail lib k (bind_once lib s)

-- Some attempt below the limit is the first to succeed, and the loop ends there; or all of them fail, and the code gives up after one attempt more, even if that one succeeds.
unfoldable pub BindResult : Library → OnFailure → (limit : ℕ) → State → Flow × State → Type 0
BindResult lib h limit s r =
    ((k : ℕ) × (k < limit)
      × (all_fail lib k s ≡ true)
      × (binds lib (after_binds lib k s) ≡ true)
      × (r ≡ (go_on, after_binds lib (suc k) s)))
    ⊎ ((all_fail lib limit s ≡ true)
        × (r ≡ (give_up h (after_binds lib (suc limit) s).errno, after_binds lib (suc limit) s)))

-- The retry loop ends: with success at the first attempt below the limit that succeeds, or giving up after one attempt more than the limit where all attempts below the limit fail, even if that last attempt succeeds.
pub bind_loop_lem :
    (lib : Library) (h : OnFailure) (limit : ℕ) (s : State)
    → BindResult lib h limit s (bind_loop lib h limit s)
unfolding bind_loop after_binds all_fail BindResult
bind_loop_lem lib h zero s = inr (refl, refl)
bind_loop_lem lib h (suc left) s = elim (Bool-cases (binds lib s)) [
  | inl won ↦ inl (0, omega arith, refl, won, rw won refl)
  | inr lost ↦ elim (bind_loop_lem lib h left (bind_once lib s)) [
    | inl (k, lt, before, won, e) ↦ inl (suc k, omega arith, rw lost before, won, rw lost e)
    | inr (all, e) ↦ inr (rw lost all, rw lost e)
  ]
]

module _ (lib : Library) where
  -- Three registrations, then one test of all.
  abbrev pub register : Verb → State → State
  register v s = made (first_call v) (lib s.calls (first_call v)) s

  abbrev pub registers : Verb → State → Bool
  registers v s = succeeded (lib s.calls (first_call v))

  unfoldable pub register_regions : Code
  register_regions s =
      let s1 = register register_rlock s in
      let s2 = register register_data s1 in
      let s3 = register register_shutdown s2 in
      (
        if registers register_rlock s
              && (registers register_data s1 && registers register_shutdown s2)
            then go_on
            else returns (neg (pos s3.errno)),
        s3,
      )

  -- With the first connection of all.
  unfoldable pub first_connection : (c i : ℕ) → Code
  unfolding register_regions
  first_connection c i =
      if (i == 0) && (c == 0)
      then (need lib alloc_pd c i ▸ register_regions ▸ try lib write_metadata c i)
      else skip

  unfoldable pub accept_thread : (c i : ℕ) → Code
  unfolding first_connection
  accept_thread c i =
      need lib connect_request c i
      ▸ first_connection c i
      ▸ checked lib return_einval (record { verb = client_id_set; client = c; thread = i })
      ▸ need lib create_comp_channel c i
      ▸ need lib create_cq c i
      ▸ need lib req_notify_cq c i
      ▸ need lib create_qp c i
      ▸ need lib ack c i
      ▸ need lib accept c i
      ▸ need lib established c i
      ▸ need lib ack c i

  unfoldable pub start_rdma_server : (nclients nthreads : ℕ) → Code
  unfolding accept_thread
  start_rdma_server nclients nthreads = function (
      need lib create_event_channel 0 0
      ▸ need lib create_id 0 0
      ▸ bind_loop lib return_errno 10
      ▸ need lib listen 0 0
      ▸ each nclients (λ c. each nthreads (accept_thread c)))

  abbrev pub must : Verb → (c t : ℕ) → Code
  must v c t = checked lib exit_failure (record { verb = v; client = c; thread = t })

  -- `listen_for_peer_connections` exits where the server returns.
  unfoldable pub accept_peer_thread : (c i : ℕ) → Code
  accept_peer_thread c i =
      must connect_request c i
      ▸ must client_id_set c i
      ▸ must create_comp_channel c i
      ▸ must create_cq c i
      ▸ must req_notify_cq c i
      ▸ must create_qp c i
      ▸ must ack c i
      ▸ must accept c i
      ▸ must established c i
      ▸ must ack c i

  unfoldable pub listen_for_peer_connections : (nclients nthreads : ℕ) → Code
  unfolding accept_peer_thread
  listen_for_peer_connections nclients nthreads = function (
      must create_event_channel 0 0
      ▸ must create_id 0 0
      ▸ bind_loop lib exit_failure 3
      ▸ must listen 0 0
      ▸ each nclients (λ c. each nthreads (accept_peer_thread c)))

  -- `if (conn->cm_client_id)`, then the calls whose results are not looked at.
  unfoldable pub close_connection : (connected : ℕ → ℕ → Bool) → (c i : ℕ) → Code
  close_connection connected c i =
      if connected c i
      then (try lib disconnect c i
          ▸ try lib destroy_qp c i
          ▸ try lib destroy_comp_channel c i
          ▸ try lib dealloc_pd c i
          ▸ try lib destroy_id c i)
      else skip

  unfoldable pub shut_connections : (connected : ℕ → ℕ → Bool) → (nclients nthreads : ℕ) → Code
  unfolding close_connection
  shut_connections connected nclients nthreads =
      each nclients (λ c. each nthreads (close_connection connected c))
