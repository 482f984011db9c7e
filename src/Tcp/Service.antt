-- ===== src/Tcp/Service.antt =====
-- A client thread (`tcp_request_lock`, `tcp_release_lock` of litl2/src/tcp_client.c) and the server
-- thread of its socket (`run_client_lock_impl`, `process_msg` and `_recv` of
-- litl2/src/tcp_server.c). A step is one call on the socket or on the server's mutex. The socket
-- carries whole messages in order, and sends succeed. A client may go away at any time, and then the
-- server's recv returns 0 once the messages are read; the server process may exit, and then a client's
-- recv returns 0, which the client takes for an answer.
use dal.Prelude.{ℕ, Bool, true, false, List, [], ◌∷◌, ◌++◌, if◌then◌else◌}
use dal.Posix.{PosixMutex, is_free}

-- The messages "l..", "r..", "granted lock" and "released lock".
pub data Message : Type 0 where
  lock_msg rel_msg granted_msg released_msg : Message

pub data Client : Type 0 where
  outside : Client
  requested : Client  -- before the recv of `tcp_request_lock`
  inside : Client  -- `tcp_request_lock` returned
  releasing : Client  -- before the recv of `tcp_release_lock`
  closed : Client

pub data Server : Type 0 where
  looping : Server  -- the test of the loop of `run_client_lock_impl`
  receiving : Server  -- its recv
  locking : Server  -- pthread_mutex_lock
  granting : Server  -- send of "granted lock"
  awaiting : Server  -- recv of the release
  confirming : Server  -- send of "released lock"
  unlocking : Server  -- pthread_mutex_unlock
  stopped : Server  -- after the loop

pub record Connection : Type 0 where
  pub client : Client
  pub server : Server
  pub up : List Message  -- sent to the server, not yet received
  pub down : List Message

pub data Choice : Type 0 where
  client_acts server_acts hang_up server_exits : Choice

pub record Memory (M : Type 0) : Type 0 where
  pub mutex : M
  pub bench_running : Bool
  pub gone : Bool  -- the server process has exited

-- recv of an answer, whatever it says; without one it blocks, or returns 0 if the server is gone, which
-- is not below 0.
abbrev pub received : Bool → List Message → Connection → Client → Connection
received gone [] c next = if gone then record c { client = next } else c
received gone (x ∷ down) c next = record c { client = next; down = down }

unfoldable pub client_step : Bool → Connection → Client → Connection
client_step gone c outside = record c { client = requested; up = c.up ++ lock_msg ∷ [] }
client_step gone c requested = received gone c.down c inside
client_step gone c inside = record c { client = releasing; up = c.up ++ rel_msg ∷ [] }
client_step gone c releasing = received gone c.down c outside
client_step gone c closed = c

abbrev pub is_closed : Client → Bool
is_closed closed = true
is_closed _ = false

module _ (posix : PosixMutex) where
  open posix use {State, owner, taken, freed}

  -- `_recv`, and the command of the message.
  unfoldable pub receive : Memory State → List Message → Connection → Memory State × Connection
  receive m (lock_msg ∷ up) c = (m, record c { server = locking; up = up })
  receive m (_ ∷ up) c = (m, record c { server = looping; up = up })
  receive m [] c =
      if is_closed c.client
      then (record m { bench_running = false }, record c { server = looping })
      else (m, c)

  -- The recv inside `process_msg`: also an end of file goes on.
  abbrev pub await : List Message → Connection → Connection
  await (_ ∷ up) c = record c { server = confirming; up = up }
  await [] c = if is_closed c.client then record c { server = confirming } else c

  unfoldable pub server_step : ℕ → Memory State → Connection → Server → Memory State × Connection
  unfolding receive
  server_step i m c looping =
      (m, record c { server = if m.bench_running then receiving else stopped })
  server_step i m c receiving = receive m c.up c
  server_step i m c locking =
      if is_free (owner m.mutex)
      then (record m { mutex = taken i m.mutex }, record c { server = granting })
      else (m, c)
  server_step i m c granting =
      (m, record c { server = awaiting; down = c.down ++ granted_msg ∷ [] })
  server_step i m c awaiting = (m, await c.up c)
  server_step i m c confirming =
      (m, record c { server = unlocking; down = c.down ++ released_msg ∷ [] })
  server_step i m c unlocking =
      (record m { mutex = freed i m.mutex }, record c { server = looping })
  server_step i m c stopped = (m, c)

  unfoldable pub step : ℕ → Choice → Memory State → Connection → Memory State × Connection
  unfolding client_step server_step
  step i client_acts m c = (m, client_step m.gone c c.client)
  step i server_acts m c = if m.gone then (m, c) else server_step i m c c.server
  step i hang_up m c = (m, record c { client = closed })
  step i server_exits m c = (record m { gone = true }, c)
