-- ===== src/Rdma/Setup/Unnoticed.antt =====
-- A failed preparation that `establish_rdma_mn_connection` of litl2/src/rdma_client.c takes for a
-- success: `return -errno` with errno 0, as after `process_rdma_cm_event` met another event than it
-- expects.
use dal.Prelude.{ℕ}
use dal.Rdma.Setup.{Call, create_sockaddr, ok, Library, State, Flow, made}
use dal.Rdma.Setup.Client.{client_prepare_server_connection}

abbrev pub resolving : Call
resolving = record { verb = create_sockaddr; client = 0; thread = 0 }

module _ (lib : Library) (nthreads : ℕ) (s : State) where
  -- The preparation, after `create_sockaddr` succeeded.
  abbrev pub prepared : Flow × State
  prepared = client_prepare_server_connection lib nthreads (made resolving ok s)
