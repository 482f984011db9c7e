-- ===== src/Lock/Instances.antt =====
-- The locks as threads run them: `spinlock_mutex_lock` and the others of litl2/src/spinlock.c,
-- and likewise of ttas.c, backoff.c, ticket.c,
-- mcs.c, clh.c, clhepfl.c, spinlockepfl.c and ctkttkt.c.
use dal.Prelude.{ℕ, ◌+◌, ◌^◌, ◌≤◌, ◌<◌, ◌≡◌, ◌≢◌, ◌⊎◌, false, some, List, All, subst}
use dal.Interleave.{Steps}
use dal.Posix.{PosixMutex}
use dal.Lock.Raw.{idle, polling, held, leaving}
use dal.Lock.Word.{locked}
use dal.Lock.Wrapper.{Pc, Choice, Memory, raw_of, step}
use dal.Lock.Invariant.{reached, reached-SysInv}
use dal.Lock.Spinlock
use dal.Lock.Ttas
use dal.Lock.Backoff
use dal.Lock.Ticket
use dal.Lock.Ticket.Tickets
use dal.Lock.Mcs
use dal.Lock.Mcs.Steps.{mcs}
use dal.Lock.Mcs.Handover.{wake_target}
use dal.Lock.Clh
use dal.Lock.Clhepfl
use dal.Lock.Spinlockepfl
use dal.Lock.Ctkttkt
use dal.Lock.Ctkttkt.Steps.{ctkttkt, home_of_holder}
use dal.Lock.Progress.{Moves}
use dal.Lock.Mcs.Progress as McsProgress
use dal.Lock.Clh.Progress as ClhProgress
use dal.Lock.Clh.Steps.{clh, owners, head_node}

module _ (posix : PosixMutex) where
  abbrev pub spinlock_step : Steps (Memory ℕ posix.State) (Pc Spinlock.Poll Spinlock.Leave) Choice
  spinlock_step = step Spinlock.spinlock posix

  abbrev pub ttas_step : Steps (Memory ℕ posix.State) (Pc Ttas.Poll Ttas.Leave) Choice
  ttas_step = step Ttas.ttas posix

  abbrev pub backoff_step : Steps (Memory ℕ posix.State) (Pc Backoff.Poll Backoff.Leave) Choice
  backoff_step = step Backoff.backoff posix

  abbrev pub ticket_step :
      Steps (Memory Ticket.Counters posix.State) (Pc Ticket.Poll Ticket.Leave) Choice
  ticket_step = step Tickets.ticket_lock posix

  abbrev pub mcs_step : Steps (Memory Mcs.Nodes posix.State) (Pc Mcs.Poll Mcs.Leave) Choice
  mcs_step = step mcs posix

  abbrev pub clh_step : Steps (Memory Clh.Nodes posix.State) (Pc Clh.Poll Clh.Leave) Choice
  clh_step = step clh posix

  abbrev pub clhepfl_step : Steps (Memory Clhepfl.Nodes posix.State) (Pc Clh.Poll Clh.Leave) Choice
  clhepfl_step = step Clhepfl.clhepfl posix

  abbrev pub spinlockepfl_step :
      Steps (Memory ℕ posix.State) (Pc Spinlockepfl.Poll Spinlockepfl.Leave) Choice
  spinlockepfl_step = step Spinlockepfl.spinlockepfl posix

module _ (posix : PosixMutex) (n : ℕ) (l : List (ℕ × Choice)) (small : All (λ e. e.0 < n) l) where
  -- A thread of the spinlock that gives the word back finds it taken: the assertion in `__spinlock_mutex_unlock` never fails.
  pub spinlock_unlock-asserts :
      (i : ℕ) (r : Spinlock.Leave)
      → raw_of ((reached Spinlock.spinlock posix l).pc i) ≡ leaving r
      → (reached Spinlock.spinlock posix l).mem.raw ≡ locked
  spinlock_unlock-asserts i r e =
      Spinlock.unlock_assert i r (reached-SysInv Spinlock.spinlock posix l tt small).raw e

  -- A thread of the backoff lock that pauses has a delay of the first one doubled at most eleven times, so at most 2 ^ 20, which is one more than MAX_BACKOFF_DELAY.
  pub backoff_delay-bounds :
      (i d left : ℕ)
      → raw_of ((reached Backoff.backoff posix l).pc i) ≡ polling (Backoff.pause d left)
      → ((k : ℕ) × (k ≤ 11) × (d ≡ Backoff.delay_at k))
        × (left ≤ d)
        × (d ≤ Backoff.max_backoff_delay + 1)
  backoff_delay-bounds i d left e =
      let v = reached-SysInv Backoff.backoff posix l tt small in
      let b = subst Backoff.Bounded e (v.raw.delays i) in (b.0, b.1, Backoff.InRange-bound d b.0)

module _ (posix : PosixMutex) (n : ℕ) (l : List (ℕ × Choice)) (fits : n < 2 ^ 32)
    (small : All (λ e. e.0 < n) l) where
  -- Two threads of the ticket lock, fewer than 2 ^ 32 in all, wait with different tickets, and a waiting thread has fewer tickets before its own than there are threads.
  pub ticket_waiters :
      (i j t u : ℕ)
      → i ≢ j
      → raw_of ((reached Tickets.ticket_lock posix l).pc i) ≡ polling (Ticket.spin t)
      → raw_of ((reached Tickets.ticket_lock posix l).pc j) ≡ polling (Ticket.spin u)
      → (t ≢ u) × (Tickets.ahead (reached Tickets.ticket_lock posix l).mem.raw t < n)
  ticket_waiters i j t u differ ei ej =
      Tickets.waiters (reached-SysInv Tickets.ticket_lock posix l fits small).raw i j t u differ ei
        ej

module _ (posix : PosixMutex) (n : ℕ) (l : List (ℕ × Choice)) (small : All (λ e. e.0 < n) l) where
  -- A thread of the MCS lock that is about to wake its successor finds one, not NULL: another thread, which waits on its own node and has not been woken yet.
  pub mcs_wake_successor :
      (i : ℕ)
      → raw_of ((reached mcs posix l).pc i) ≡ leaving Mcs.load_next
      → (j : ℕ) × ((reached mcs posix l).mem.raw.next i ≡ some j)
        × (raw_of ((reached mcs posix l).pc j) ≡ polling Mcs.wait)
        × (j ≢ i)
        × ((reached mcs posix l).mem.raw.spin j ≡ locked)
  mcs_wake_successor i e = wake_target (reached-SysInv mcs posix l tt small).raw i e

  -- Two threads of the CLH lock that do not use it own different nodes, and the tail, which the next thread will wait on, is not among them: a node that moves to another thread has one owner.
  pub clh_nodes_differ :
      (i j : ℕ)
      → i ≢ j
      → raw_of ((reached clh posix l).pc i) ≡ idle
      → raw_of ((reached clh posix l).pc j) ≡ idle
      → ((reached clh posix l).mem.raw.current i ≢ (reached clh posix l).mem.raw.current j)
        × ((reached clh posix l).mem.raw.current i ≢ (reached clh posix l).mem.raw.tail)
  clh_nodes_differ i j differ ei ej =
      owners (reached-SysInv clh posix l tt small).raw i j differ ei ej

  -- A thread of the CLH lock that releases it finds a node at the head, not NULL, that is marked, as the nodes are on which the others wait.
  pub clh_unlock_head :
      (i : ℕ)
      → raw_of ((reached clh posix l).pc i) ≡ leaving Clh.read_head
      → (k : ℕ) × ((reached clh posix l).mem.raw.head ≡ some k)
        × ((reached clh posix l).mem.raw.spin k ≡ locked)
        × ((reached clh posix l).mem.raw.spin ((reached clh posix l).mem.raw.current i) ≢ locked)
  clh_unlock_head i e = head_node (reached-SysInv clh posix l tt small).raw i e

  -- The MCS lock does not deadlock: while a thread is on its way in or out of it, some thread holds it or has a next step that takes it further.
  pub mcs_progress :
      (i : ℕ)
      → raw_of ((reached mcs posix l).pc i) ≢ idle
      → (j : ℕ) × Moves mcs j (reached mcs posix l).mem.raw (raw_of ((reached mcs posix l).pc j))
  mcs_progress = McsProgress.progress (reached-SysInv mcs posix l tt small).raw

  -- The CLH lock does not deadlock either: while a thread is on its way in or out of it, and has not called trylock, whose assertion stops it, some thread holds it or has a next step that takes it further.
  pub clh_progress :
      (i : ℕ)
      → raw_of ((reached clh posix l).pc i) ≢ idle
      → raw_of ((reached clh posix l).pc i) ≢ polling Clh.refuse
      → (j : ℕ) × Moves clh j (reached clh posix l).mem.raw (raw_of ((reached clh posix l).pc j))
  clh_progress = ClhProgress.progress (reached-SysInv clh posix l tt small).raw

module _ (nodes : ℕ) (node : ℕ → ℕ) (some_node : (i : ℕ) → node i < nodes) (few : nodes < 2 ^ 32)
    (posix : PosixMutex) where
  abbrev pub ctkttkt_step :
      Steps (Memory Ctkttkt.Cohort posix.State) (Pc Ctkttkt.Poll Ctkttkt.Leave) Choice
  ctkttkt_step = step (ctkttkt nodes node some_node few) posix

  -- A thread of the cohort lock that holds it, or starts to release it, finds its own node as the home, so that the release works on the lock which that thread took, and not on NULL; and no flag is set by which another node would think that it has the upper lock. The nodes and the threads are fewer than 2 ^ 32.
  pub ctkttkt_home :
      (n : ℕ) (l : List (ℕ × Choice)) (fits : n < 2 ^ 32) (small : All (λ e. e.0 < n) l) (i : ℕ)
      → (raw_of ((reached (ctkttkt nodes node some_node few) posix l).pc i) ≡ held)
        ⊎ (raw_of ((reached (ctkttkt nodes node some_node few) posix l).pc i)
            ≡ leaving Ctkttkt.read_home)
      → ((reached (ctkttkt nodes node some_node few) posix l).mem.raw.top_home ≡ some (node i))
        × ((k : ℕ)
            → (reached (ctkttkt nodes node some_node few) posix l).mem.raw.top_grant k ≡ false)
  ctkttkt_home n l fits small =
      home_of_holder nodes node
        (reached-SysInv (ctkttkt nodes node some_node few) posix l fits small).raw
