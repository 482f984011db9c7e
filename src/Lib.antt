-- ===== src/Lib.antt =====
-- DAL: locks for one machine (litl2/src: the lock algorithms of LiTL, interposed on pthread
-- mutexes) and for disaggregated memory (litl2/src/rdma_client.c, rdma_server.c, rdma_common.c:
-- lock words and data blocks on a memory node that clients reach by RDMA), with a benchmark
-- (microbench, litl2/src/utils.c) that drives them.
--
-- The parts, and the files that model them:
-- - Interleave: threads that share a memory; a schedule is any list of thread numbers with the
--   choices of the environment. One step of a thread is one access to shared memory, one call of
--   the C library or one RDMA operation. Memory is sequentially consistent.
-- - Posix: the pthread mutex beside each lock, a parameter with its documented behaviour.
-- - Lock: Lock/Raw is the interface of a lock algorithm, a machine with its laws. Lock/Wrapper is
--   the code that each lock file repeats around its own (X_mutex_lock, X_mutex_trylock,
--   X_mutex_unlock, X_cond_timedwait, with COND_VAR set as litl2/Makefile has it). Lock/Spinlock,
--   Ttas, Backoff, Ticket, Mcs, Clh, Clhepfl, Spinlockepfl, Mcsepfl, Ticketepfl, Ttasepfl,
--   Ctkttkt and Cbomcs implement the interface (the files of litl2/src of the same names; `poll`
--   is a round of an acquire, `leave` a step of a release). The queues of MCS and CLH are in
--   Mcs/Queue and Clh/Queue: places numbered from the holder's on. Moves has one lemma for each
--   change of the queue, Steps applies them, Mcs/Handover says who is woken, and Progress, after
--   Lock/Progress, that a thread can go on. Clhepfl/Same compares clhepfl.c with clh.c.
--   Mcsepfl and Ticketepfl rest on mcs.c and ticket.c, whose threads those of the
--   files are seen as. Ctkttkt and Cbomcs are cohort locks, with Lock/Cohort: Places says where
--   each thread stands in the lock of its node, and who has the upper lock, and Cbomcs/Kept and
--   Handover follow the queue that it passes to; the node of a thread
--   (`current_numa_node`) is a parameter and does not change. Lock/Partitioned and Lock/Alockepfl
--   are the code of partitioned.c and alockepfl.c, which are not behind the interface.
--   Lock/Invariant and Lock/Safety prove the wrapper for every implementation, and Lock/Instances
--   and Lock/Variants put the two together. `attempt` and `alone` of Lock/Raw run an acquire and a
--   release without other threads; Lock/Alone does so for the release of ctkttkt.c.
-- - Rdma: Rdma/Nic is the card, a parameter; Rdma/Client is a client thread of
--   rdma_request_lock_X and rdma_release_lock_X for the spin, backoff and lease locks, with the
--   increment that microbench/main_disa.c makes inside. An operation may fail, also with the
--   status IBV_WC_LOC_LEN_ERR, which perform_rdma_op reports as success. Rdma/Invariant, Moves,
--   Steps and Safety are its proof for any number of threads. Rdma/Completion and Rdma/Cm
--   are the helpers that wait for the card. Rdma/Setup is the setup of connections, as code that
--   calls the library and stops at the first failure. Rdma/Meta is the metadata files,
--   Rdma/Buffers the memory of the threads, Rdma/Alloc the registered buffers of litl2/src/rdma_common.c.
-- - Tcp: the lock service of litl2/src/tcp_client.c and tcp_server.c: Tcp/Service is a client
--   with its server thread and the messages between them; the server process may exit, and then a
--   client takes the end of file for an answer. Tcp/Exclusion, Ownership and Safety
--   prove it.
-- - Interpose: litl2/src/interpose.c, the pthread functions of the library: the hash table from
--   mutexes to locks (Interpose/Table, a parameter), the threads that look locks up, create and
--   destroy them, and their numbers. Interpose/Ledger says who has which lock, Moves, Entries and
--   Steps keep it, Sharing is the part without destroys, Leak follows a lock that lost the race.
--   Interpose/Program puts the locks behind it: each lock of the table is a machine of Lock, and
--   a thread runs on it with its number. A thread that has looked a lock up may make several
--   calls on it in a row, which the code does with a look-up before each.
-- - Bench: pin_thread, current_numa_node, write_res_cum and check_correctness of
--   litl2/src/utils.c.
-- - Tests: concrete runs.
--
-- Bounds and fuel. Loops of threads need no fuel: each round is a step, and schedules are finite
-- but arbitrary. Integers wrap where the code's do: the 32-bit counters of the ticket locks and
-- of the threads, the `int` index of the partitioned lock, the `int` byte offsets, the 64-bit
-- sums. The numbers that order a queue are not in the code and do not wrap. The loop on
-- ibv_poll_cq runs over the answers of the card and is `none` while they are too few; the
-- theorems give enough of them. The retry loop on bind recurses on the attempts that are left.
-- The runs without other threads have steps as fuel: eight for the release of ctkttkt.c, two for
-- those of partitioned.c and alockepfl.c and for the acquire of the latter, in which they end.
--
-- Not modelled: the other locks of litl2/src, the interposed pthread spin locks and rwlocks (they
-- call the functions that are modelled), the C library's own calls beside them, the drivers in
-- microbench, signals of condition variables, and the timing statistics; Sherman is another
-- project's library. Attributes of queue pairs and of connections are not modelled, nor
-- allocations that the code does not check.
-- A store through NULL, or before the start of a lock, stops the thread.
pub mod Prelude
pub mod Interleave
pub mod Posix
pub mod Lock
pub mod Rdma
pub mod Tcp
pub mod Interpose
pub mod Bench
pub mod Tests
