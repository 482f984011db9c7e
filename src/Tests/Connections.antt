-- ===== src/Tests/Connections.antt =====
-- Connections that are set up with a library whose calls succeed up to a certain number.
use dal.Prelude.{
  ℕ, ◌*◌, ◌≡◌, refl, Bool, true, ◌==◌, ◌++◌, none, [], ◌∷◌, arith, length, ltb, if◌then◌else◌, pos,
  neg,
}
use dal.Rdma.Client.{max_array_size}
use dal.Rdma.Setup.{
  Library, ok, failed, State, go_on, returns, return_errno, create_event_channel, create_id,
  resolve_addr, addr_resolved, ack, resolve_route, route_resolved, alloc_pd, create_comp_channel,
  create_cq, req_notify_cq, create_qp, made, each, checked,
}
use dal.Rdma.Setup.Unnoticed.{resolving, prepared}
use dal.Rdma.Setup.Attempt.{each_plan, needs, AllOk, Attempted, Stopped}
use dal.Rdma.Setup.Client.{
  prepare_plan, connect_server_plan, client_prepare_server_connection, client_connect_to_server,
  client_prepare_server_connection_lem, client_connect_to_server_lem, prepare_thread,
}
use dal.Rdma.Setup.Server.{BindResult, bind_loop, bind_loop_lem, shut_connections}
use dal.Rdma.Setup.Ledger.{closings, shut_connections-calls}
use dal.Rdma.Meta.{
  Region, LineFormat, Node, read_mn_metadata_file, write_server, read_mn-write_server,
}
use dal.Rdma.Buffers.{Local, populate_mn_client_meta, Apart, Within, data_buffers-Apart}

-- ENETUNREACH from the 21st call on
abbrev twenty_calls : Library
twenty_calls calls c = if ltb (length calls) 20 then ok else failed 101

abbrev no_calls : State
no_calls = record { calls = []; errno = 0 }

client_prepare_server_connection_lem_example :
    Attempted twenty_calls
      (each_plan 2 prepare_plan)
      no_calls
      (returns (pos 0))
      (client_prepare_server_connection twenty_calls 2 no_calls)
client_prepare_server_connection_lem_example =
    client_prepare_server_connection_lem twenty_calls 2 no_calls

client_connect_to_server_lem_example :
    Attempted twenty_calls
      (connect_server_plan 2)
      no_calls
      (returns (pos 0))
      (client_connect_to_server twenty_calls 2 no_calls)
client_connect_to_server_lem_example = client_connect_to_server_lem twenty_calls 2 no_calls

-- The event of the address resolution is another one than expected.
abbrev silent : Library
silent calls c = if length calls == 4 then failed 0 else ok

abbrev silent_stop :
    Stopped silent
      (each_plan 1 prepare_plan)
      (made resolving ok no_calls)
      (prepared silent 1 no_calls)
unfolding client_prepare_server_connection prepare_thread each each_plan checked AllOk
silent_stop = record {
  before = needs (create_event_channel ∷ create_id ∷ resolve_addr ∷ []) 0 0;
  after =
      needs
        (ack ∷ resolve_route ∷ route_resolved ∷ ack ∷ alloc_pd ∷ create_comp_channel ∷ create_cq
          ∷ req_notify_cq ∷ create_qp ∷ [])
        0 0;
  how = return_errno;
  call = record { verb = addr_resolved; client = 0; thread = 0 };
  errno = 0;
  splits = refl;
  all_ok = (refl, (refl, (refl, tt)));
  reply = refl;
  matters = refl;
  flow = refl;
  calls = refl;
}

-- Ten attempts fail, and the eleventh would succeed.
abbrev late_bind : Library
late_bind calls c = if ltb (length calls) 10 then failed 98 else ok

bind_loop_lem_example :
    BindResult late_bind return_errno 10 no_calls (bind_loop late_bind return_errno 10 no_calls)
bind_loop_lem_example = bind_loop_lem late_bind return_errno 10 no_calls

late_bind_gives_up : (bind_loop late_bind return_errno 10 no_calls).0 ≡ returns (neg (pos 98))
unfolding bind_loop
late_bind_gives_up = refl

-- Only thread 0 of each client got its connection.
abbrev firsts : ℕ → ℕ → Bool
firsts c i = i == 0

shut_connections-calls_example :
    ((shut_connections twenty_calls firsts 3 4 no_calls).0 ≡ go_on)
    × ((shut_connections twenty_calls firsts 3 4 no_calls).1.calls ≡ [] ++ closings firsts 3 4)
shut_connections-calls_example = shut_connections-calls twenty_calls firsts 3 4 no_calls

-- Lines that are the regions themselves.
abbrev plain_lines : LineFormat
plain_lines = record {
  Line = Region;
  print = λ r. r;
  scan = λ l old. l;
  scan-print = λ r old h. refl;
}

abbrev region : ℕ → Region
region a = record { addr = a; rkey = 7 }

abbrev node : Node
node = record { block = region 4096; rlock = region 64; rshutdown = region 8 }

abbrev unknown : Node
unknown = record { block = region 0; rlock = region 0; rshutdown = region 0 }

read_mn-write_server_example :
    read_mn_metadata_file plain_lines
      (write_server plain_lines (λ p. true) 13 node (λ p. none)).1
      unknown
    ≡ (pos 0, node)
read_mn-write_server_example =
    read_mn-write_server plain_lines (λ p. true) 13 node unknown (λ p. none) refl refl
      (omega arith, omega arith) (omega arith, omega arith) (omega arith, omega arith)

abbrev local : Local
local = record { cas = region 64; block = region 65536; unlock = region 8 }

data_buffers-Apart_example :
    Apart
      (populate_mn_client_meta local node 1).data_wr.sge
      (populate_mn_client_meta local node 3).data_wr.sge
    × Within (populate_mn_client_meta local node 1).data_wr.sge 65536 (4 * max_array_size)
data_buffers-Apart_example =
    data_buffers-Apart local node 4 1 3 (omega arith) (omega arith) (omega arith) (omega arith)
