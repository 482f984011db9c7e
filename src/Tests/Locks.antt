-- ===== src/Tests/Locks.antt =====
-- The wrapped locks under short schedules of two threads.
use dal.Prelude.{ℕ, ◌+◌, ◌-◌, ◌^◌, ◌<◌, ◌≤◌, ◌≡◌, ◌≢◌, ◌↔◌, refl, true, some, List, [], ◌∷◌, arith}
use dal.Interleave.{turn, run}
use dal.Posix.{owner_cell}
use dal.Lock.Raw.{held, polling}
use dal.Lock.Wrapper.{
  Choice, call_lock, call_wait, proceed, raw_of, owns_posix, wait_entering, step, take_posix,
}
use dal.Lock.Invariant.{reached}
use dal.Lock.Safety.{holders_exclusive, owner_iff}
use dal.Lock.Instances.{backoff_delay-bounds, ticket_waiters}
use dal.Lock.Spinlock
use dal.Lock.Spinlock.{spinlock}
use dal.Lock.Backoff
use dal.Lock.Backoff.{backoff}
use dal.Lock.Ticket
use dal.Lock.Ticket.Tickets.{ticket_lock, ahead}

-- Thread 0 gets the lock, thread 1 polls for it.
abbrev contended : List (ℕ × Choice)
contended = (0, call_lock) ∷ (0, proceed) ∷ (0, proceed) ∷ (1, call_lock) ∷ (1, proceed) ∷ []

contended_0 : raw_of ((reached spinlock owner_cell contended).pc 0) ≡ held
unfolding run turn step take_posix Spinlock.poll
contended_0 = refl

holders_exclusive_example : raw_of ((reached spinlock owner_cell contended).pc 1) ≢ held
holders_exclusive_example =
    holders_exclusive spinlock owner_cell {n = 2} contended tt (ground arith) 0 1 (omega arith)
      (omega arith) (omega arith) contended_0

owner_iff_example :
    ((reached spinlock owner_cell contended).mem.posix ≡ some 0)
    ↔ (owns_posix ((reached spinlock owner_cell contended).pc 0) ≡ true)
owner_iff_example = owner_iff spinlock owner_cell {n = 2} contended tt (ground arith) 0

-- Thread 0 waits: it has given the lock back, and thread 1 has taken it.
abbrev waiting : List (ℕ × Choice)
waiting =
    (0, call_lock)
    ∷ (0, proceed)
    ∷ (0, proceed)
    ∷ (0, call_wait)
    ∷ (0, proceed)
    ∷ (1, call_lock)
    ∷ (1, proceed)
    ∷ (1, proceed)
    ∷ []

waiting_0 : (reached spinlock owner_cell waiting).pc 0 ≡ wait_entering
unfolding run turn step take_posix Spinlock.poll Spinlock.leave
waiting_0 = refl

waiting_1 : raw_of ((reached spinlock owner_cell waiting).pc 1) ≡ held
unfolding run turn step take_posix Spinlock.poll Spinlock.leave
waiting_1 = refl

-- Thread 0 holds the backoff lock, thread 1 pauses.
abbrev backing_off : List (ℕ × Choice)
backing_off = (0, call_lock) ∷ (0, proceed) ∷ (0, proceed) ∷ (1, call_lock) ∷ (1, proceed) ∷ []

backing_off_1 :
    raw_of ((reached backoff owner_cell backing_off).pc 1) ≡ polling (Backoff.pause 512 512)
unfolding run turn step take_posix Backoff.poll
backing_off_1 = refl

backoff_delay-bounds_example :
    ((k : ℕ) × (k ≤ 11) × (512 ≡ Backoff.delay_at k))
    × (512 ≤ 512)
    × (512 ≤ Backoff.max_backoff_delay + 1)
backoff_delay-bounds_example =
    backoff_delay-bounds owner_cell 2 backing_off (ground arith) 1 512 512 backing_off_1

-- Thread 0 holds the ticket lock, threads 1 and 2 wait.
abbrev queueing : List (ℕ × Choice)
queueing =
    (0, call_lock)
    ∷ (0, proceed)
    ∷ (0, proceed)
    ∷ (1, call_lock)
    ∷ (1, proceed)
    ∷ (2, call_lock)
    ∷ (2, proceed)
    ∷ []

queueing_1 : raw_of ((reached ticket_lock owner_cell queueing).pc 1) ≡ polling (Ticket.spin 1)
unfolding run turn step take_posix Ticket.poll
queueing_1 = refl

queueing_2 : raw_of ((reached ticket_lock owner_cell queueing).pc 2) ≡ polling (Ticket.spin 2)
unfolding run turn step take_posix Ticket.poll
queueing_2 = refl

ticket_waiters_example :
    ◌≢◌ {A = ℕ} 2 1 × (ahead (reached ticket_lock owner_cell queueing).mem.raw 2 < 3)
ticket_waiters_example =
    ticket_waiters owner_cell 3 queueing (omega arith) (ground arith) 2 1 2 1 (omega arith)
      queueing_2 queueing_1

abbrev wrapped : Ticket.Counters
wrapped = record { request = 1; grant = 2 ^ 32 - 1 }
