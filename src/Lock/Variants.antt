-- ===== src/Lock/Variants.antt =====
-- More locks of litl2/src as threads run them: mcsepfl.c, ticketepfl.c, ttasepfl.c and cbomcs.c.
use dal.Prelude.{
  none, ℕ, ◌≤◌, ◌<◌, ◌≡◌, ◌^◌, ◌≢◌, refl, true, some, arith, Option, List, All, subst,
}
use dal.Interleave.{Steps}
use dal.Posix.{PosixMutex}
use dal.Lock.Raw.{polling, held}
use dal.Lock.Word.{unlocked}
use dal.Lock.Wrapper.{Pc, Choice, Memory, raw_of, step}
use dal.Lock.Invariant.{reached, reached-SysInv}
use dal.Lock.Mcs
use dal.Lock.Cbomcs
use dal.Lock.Cbomcs.Steps.{cbomcs}
use dal.Lock.Mcsepfl
use dal.Lock.Mcsepfl.Steps.{mcsepfl}
use dal.Lock.Ticket
use dal.Lock.Ticket.Tickets
use dal.Lock.Ticketepfl
use dal.Lock.Ticketepfl.Steps as TicketepflSteps
use dal.Lock.Ttasepfl
use dal.Lock.Ttasepfl.{ttasepfl}

module _ (posix : PosixMutex) where
  abbrev pub mcsepfl_step :
      (ℕ → Option ℕ)
      → (ℕ → ℕ)
      → Steps (Memory Mcs.Nodes posix.State) (Pc Mcsepfl.Poll Mcs.Leave) Choice
  mcsepfl_step next spin = step (mcsepfl next spin) posix

  abbrev pub ticketepfl_step :
      Steps (Memory Ticket.Counters posix.State) (Pc Ticketepfl.Poll Ticketepfl.Leave) Choice
  ticketepfl_step = step TicketepflSteps.ticketepfl posix

  abbrev pub ttasepfl_step :
      (ℕ → Ttasepfl.Seeds)
      → Steps (Memory Ttasepfl.Mem posix.State) (Pc Ttasepfl.Poll Ttasepfl.Leave) Choice
  ttasepfl_step seeds = step (ttasepfl seeds) posix

  abbrev pub cbomcs_step :
      (ℕ → ℕ)
      → (ℕ → Option ℕ)
      → (ℕ → ℕ)
      → Steps (Memory Cbomcs.Cohort posix.State) (Pc Cbomcs.Poll Cbomcs.Leave) Choice
  cbomcs_step node next spin = step (cbomcs node next spin) posix

module _ (posix : PosixMutex) (n : ℕ) (l : List (ℕ × Choice)) (small : All (λ e. e.0 < n) l) where
  -- A thread of the TTAS lock of libslock that pauses does so for a delay below MAX_DELAY, and has a limit between 1 and MAX_DELAY, so that the remainder by it is defined when it next takes one.
  pub ttasepfl_limit-bounds :
      (seeds : ℕ → Ttasepfl.Seeds) (i d : ℕ)
      → raw_of ((reached (ttasepfl seeds) posix l).pc i) ≡ polling (Ttasepfl.pause d)
      → (d < Ttasepfl.max_delay)
        × (1 ≤ (reached (ttasepfl seeds) posix l).mem.raw.limit i)
        × ((reached (ttasepfl seeds) posix l).mem.raw.limit i ≤ Ttasepfl.max_delay)
  ttasepfl_limit-bounds seeds i d e =
      let v = reached-SysInv (ttasepfl seeds) posix l tt small in
      (subst Ttasepfl.Short e (v.raw.delays i), (v.raw.limits i).0, (v.raw.limits i).1)

  -- While the flag of a node of the cohort lock cbomcs.c is set, the upper lock is taken, that node is its home, so that the thread which clears the flag will release the lock of its own node, some thread is still queued in the lock of that node, and no thread holds the cohort lock.
  pub cbomcs_handover :
      (node : ℕ → ℕ) (next : ℕ → Option ℕ) (spin : ℕ → ℕ) (k : ℕ)
      → (reached (cbomcs node next spin) posix l).mem.raw.top_grant k ≡ true
      → ((reached (cbomcs node next spin) posix l).mem.raw.top_word ≢ unlocked)
        × ((reached (cbomcs node next spin) posix l).mem.raw.top_home ≡ some k)
        × (((reached (cbomcs node next spin) posix l).mem.raw.local_locks k).tail ≢ none)
        × ((j : ℕ) → raw_of ((reached (cbomcs node next spin) posix l).pc j) ≢ held)
  cbomcs_handover node next spin k e =
      let v = reached-SysInv (cbomcs node next spin) posix l tt small in
      let f = v.raw.0.top.flagged k e in
      (f.0, f.1, v.raw.1.waiting k e, λ j h. ground (arith, e, v.raw.0.top.apart j k))

module _ (posix : PosixMutex) (n : ℕ) (l : List (ℕ × Choice)) (fits : n < 2 ^ 32)
    (small : All (λ e. e.0 < n) l) where
  -- Two threads of the ticket lock of libslock, fewer than 2 ^ 32 in all, that test the grant in their loops have different tickets, and a waiting thread has fewer tickets before its own than there are threads.
  pub ticketepfl_waiters :
      (i j t u w w' p p' : ℕ)
      → i ≢ j
      → raw_of ((reached TicketepflSteps.ticketepfl posix l).pc i)
        ≡ polling (Ticketepfl.watch t w p)
      → raw_of ((reached TicketepflSteps.ticketepfl posix l).pc j)
        ≡ polling (Ticketepfl.watch u w' p')
      → (t ≢ u) × (Tickets.ahead (reached TicketepflSteps.ticketepfl posix l).mem.raw t < n)
  ticketepfl_waiters i j t u w w' p p' differ ei ej =
      Tickets.waiters (reached-SysInv TicketepflSteps.ticketepfl posix l fits small).raw.tickets i j
        t u differ (rw ei refl) (rw ej refl)
