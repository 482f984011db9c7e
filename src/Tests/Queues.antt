-- ===== src/Tests/Queues.antt =====
-- The queue locks under short schedules of two threads.
use dal.Prelude.{
  ℕ, ◌+◌, ◌-◌, ◌^◌, ◌<◌, ◌≡◌, ◌≢◌, ◌↔◌, ◌⊎◌, ◌%◌, refl, some, none, false, inl, pos, List, [], ◌∷◌,
  arith,
}
use dal.Interleave.{turn, run}
use dal.Posix.{owner_cell}
use dal.Lock.Raw.{pending, idle, polling, held, leaving}
use dal.Lock.Word.{locked}
use dal.Lock.Wrapper.{
  Choice, call_lock, call_unlock, call_trylock, proceed, raw_of, step, take_posix,
}
use dal.Lock.Invariant.{reached}
use dal.Lock.Instances.{
  mcs_wake_successor, mcs_progress, clh_progress, clh_nodes_differ, ctkttkt_home,
}
use dal.Lock.Mcs
use dal.Lock.Mcs.Steps.{mcs}
use dal.Lock.Clh
use dal.Lock.Partitioned
use dal.Lock.Partitioned.{Tickets, own, spin, read_owner, grant_reaches_next_iff}
use dal.Lock.Clhepfl.{clhepfl}
use dal.Lock.Clhepfl.Same.{image, clhepfl_runs_as_clh}
use dal.Lock.Progress.{Moves}
use dal.Lock.Clh.Steps.{clh}
use dal.Lock.Ctkttkt
use dal.Lock.Raw.{alone}
use dal.Lock.Alone.{passed_on, ctkttkt_release}
use dal.Lock.Ctkttkt.Steps.{ctkttkt}
use dal.Lock.Ticket

-- Thread 0 gets the MCS lock, thread 1 queues behind it, and thread 0 starts to unlock.
abbrev mcs_unlocking : List (ℕ × Choice)
mcs_unlocking =
    (0, call_trylock)
    ∷ (0, proceed)
    ∷ (0, proceed)
    ∷ (0, proceed)
    ∷ (0, proceed)
    ∷ (1, call_lock)
    ∷ (1, proceed)
    ∷ (1, proceed)
    ∷ (1, proceed)
    ∷ (1, proceed)
    ∷ (1, proceed)
    ∷ (0, call_unlock)
    ∷ (0, proceed)
    ∷ []

mcs_unlocking_0 : raw_of ((reached mcs owner_cell mcs_unlocking).pc 0) ≡ leaving Mcs.load_next
unfolding run turn step take_posix Mcs.poll Mcs.leave
mcs_unlocking_0 = refl

mcs_wake_successor_example :
    (j : ℕ) × ((reached mcs owner_cell mcs_unlocking).mem.raw.next 0 ≡ some j)
    × (raw_of ((reached mcs owner_cell mcs_unlocking).pc j) ≡ polling Mcs.wait)
    × (j ≢ 0)
    × ((reached mcs owner_cell mcs_unlocking).mem.raw.spin j ≡ locked)
mcs_wake_successor_example =
    mcs_wake_successor owner_cell 2 mcs_unlocking (ground arith) 0 mcs_unlocking_0

-- Thread 0 has the CLH lock and gives the posix mutex back, thread 1 waits on the node of thread 0.
abbrev clh_unlocking : List (ℕ × Choice)
clh_unlocking =
    (0, call_lock)
    ∷ (0, proceed)
    ∷ (0, proceed)
    ∷ (0, proceed)
    ∷ (0, proceed)
    ∷ (0, proceed)
    ∷ (0, proceed)
    ∷ (1, call_lock)
    ∷ (1, proceed)
    ∷ (1, proceed)
    ∷ (0, call_unlock)
    ∷ []

clh_unlocking_0 : raw_of ((reached clh owner_cell clh_unlocking).pc 0) ≡ leaving Clh.read_head
unfolding run turn step take_posix Clh.poll Clh.leave
clh_unlocking_0 = refl

-- Thread 0 has used the CLH lock once, thread 1 has not.
abbrev clh_once : List (ℕ × Choice)
clh_once =
    (0, call_lock)
    ∷ (0, proceed)
    ∷ (0, proceed)
    ∷ (0, proceed)
    ∷ (0, proceed)
    ∷ (0, proceed)
    ∷ (0, proceed)
    ∷ (0, call_unlock)
    ∷ (0, proceed)
    ∷ (0, proceed)
    ∷ []

clh_once_0 : raw_of ((reached clh owner_cell clh_once).pc 0) ≡ idle
unfolding run turn step take_posix Clh.poll Clh.leave
clh_once_0 = refl

clh_once_1 : raw_of ((reached clh owner_cell clh_once).pc 1) ≡ idle
unfolding run turn step take_posix Clh.poll Clh.leave
clh_once_1 = refl

clh_nodes_differ_example :
    ((reached clh owner_cell clh_once).mem.raw.current 0
      ≢ (reached clh owner_cell clh_once).mem.raw.current 1)
    × ((reached clh owner_cell clh_once).mem.raw.current 0
        ≢ (reached clh owner_cell clh_once).mem.raw.tail)
clh_nodes_differ_example =
    clh_nodes_differ owner_cell 2 clh_once (ground arith) 0 1 (omega arith) clh_once_0 clh_once_1

-- Thread 0 unlocks the MCS lock while thread 1 has exchanged the tail and not linked itself.
abbrev mcs_unlinked : List (ℕ × Choice)
mcs_unlinked =
    (0, call_trylock)
    ∷ (0, proceed)
    ∷ (0, proceed)
    ∷ (0, proceed)
    ∷ (0, proceed)
    ∷ (1, call_lock)
    ∷ (1, proceed)
    ∷ (1, proceed)
    ∷ (1, proceed)
    ∷ (0, call_unlock)
    ∷ (0, proceed)
    ∷ (0, proceed)
    ∷ []

mcs_unlinked_0 : raw_of ((reached mcs owner_cell mcs_unlinked).pc 0) ≡ leaving Mcs.wait_next
unfolding run turn step take_posix Mcs.poll Mcs.leave
mcs_unlinked_0 = refl

mcs_progress_example :
    (j : ℕ) × Moves mcs j
      (reached mcs owner_cell mcs_unlinked).mem.raw
      (raw_of ((reached mcs owner_cell mcs_unlinked).pc j))
mcs_progress_example =
    mcs_progress owner_cell 2 mcs_unlinked (ground arith) 0 (rw mcs_unlinked_0 (λ h. ground arith))

clh_progress_example :
    (j : ℕ) × Moves clh j
      (reached clh owner_cell clh_unlocking).mem.raw
      (raw_of ((reached clh owner_cell clh_unlocking).pc j))
clh_progress_example =
    clh_progress owner_cell 2 clh_unlocking (ground arith) 0
      (rw clh_unlocking_0 (λ h. ground arith)) (rw clh_unlocking_0 (λ h. ground arith))

-- Two slots; the owner of ticket 2 ^ 31 releases, the thread with the next ticket waits.
abbrev halfway : Tickets
halfway = record { request = 2 ^ 31 + 2; owner_ticket = 2 ^ 31; grants = λ s. 2 ^ 31 - s }

grant_reaches_next_iff_example :
    ((Partitioned.poll 2 1
        (alone (Partitioned.leave 2) 0 2 halfway (some read_owner)).0
        (spin (2 ^ 31 + 1))).1
      ≡ pending (own (2 ^ 31 + 1)))
    ↔ (◌≡◌ {A = ℕ} (2 ^ 31 + 1) (2 ^ 31 + 1)
        × ((2 ^ 31 + 1 < 2 ^ 31)
            ⊎ ((◌≡◌ {A = ℕ} ((2 ^ 31 + 1) % 2) 0) × (◌≡◌ {A = ℕ} ((2 ^ 32 - (2 ^ 31 + 1)) % 2) 0))))
grant_reaches_next_iff_example =
    grant_reaches_next_iff 2 0 1 (2 ^ 31 + 1) (2 ^ 31 + 1) halfway refl (λ h. ground arith)

clhepfl_runs_as_clh_example :
    reached clh owner_cell clh_unlocking
    ≡ image owner_cell (reached clhepfl owner_cell clh_unlocking)
clhepfl_runs_as_clh_example = clhepfl_runs_as_clh owner_cell clh_unlocking

-- Three threads on two nodes: thread 0 has the cohort lock, thread 2 of its node and thread 1 of the other one wait.
abbrev parity : ℕ → ℕ
parity i = i % 2

parity-bound : (i : ℕ) → parity i < 2
parity-bound i = omega arith

two_nodes : 2 < 2 ^ 32
two_nodes = omega arith

abbrev cohort_waiting : List (ℕ × Choice)
cohort_waiting =
    (0, call_lock)
    ∷ (0, proceed)
    ∷ (0, proceed)
    ∷ (2, call_lock)
    ∷ (1, call_lock)
    ∷ (2, proceed)
    ∷ (1, proceed)
    ∷ (0, proceed)
    ∷ (0, proceed)
    ∷ (0, proceed)
    ∷ (1, proceed)
    ∷ (0, proceed)
    ∷ []

cohort_waiting_0 :
    raw_of ((reached (ctkttkt 2 parity parity-bound two_nodes) owner_cell cohort_waiting).pc 0)
    ≡ held
unfolding run turn step take_posix Ctkttkt.poll Ctkttkt.leave Ticket.poll Ticket.leave
cohort_waiting_0 = refl

ctkttkt_home_example :
    ((reached (ctkttkt 2 parity parity-bound two_nodes) owner_cell cohort_waiting).mem.raw.top_home
      ≡ some 0)
    × ((k : ℕ)
        → (reached
              (ctkttkt 2 parity parity-bound two_nodes)
              owner_cell
              cohort_waiting).mem.raw.top_grant
            k
          ≡ false)
ctkttkt_home_example =
    ctkttkt_home 2 parity parity-bound two_nodes owner_cell 3 cohort_waiting (omega arith)
      (ground arith) 0 (inl cohort_waiting_0)

-- Thread 0 releases while one more thread of its node has a ticket.
abbrev contended : Ctkttkt.Cohort
contended = record {
  local_locks = λ k. record { request = 2; grant = 0 };
  top_grant = λ k. false;
  batch = λ k. pos 7;
  top_lock = record { request = 1; grant = 0 };
  top_home = some 0;
}

ctkttkt_release_example :
    alone (Ctkttkt.leave parity) 0 8 contended (some Ctkttkt.read_home)
    ≡ (passed_on 0 contended, none)
ctkttkt_release_example = ctkttkt_release parity 0 0 contended refl
