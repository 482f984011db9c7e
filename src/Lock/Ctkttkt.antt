-- ===== src/Lock/Ctkttkt.antt =====
-- litl2/src/ctkttkt.c: a ticket lock for each NUMA node and one above them. A thread that releases
-- may leave the upper lock to the next thread of its node (`top_grant`), BATCH_COUNT times in a row.
-- `node i` is the node on which thread `i` calls (`current_numa_node`).
pub mod Places
pub mod Moves
pub mod Parts
pub mod Acquire
pub mod Release
pub mod Steps
use dal.Prelude.{
  ℕ, zero, suc, ◌+◌, ◌^◌, Bool, true, false, Option, none, some, update, ◌==◌, if◌then◌else◌, not,
  ℤ, pos, negsuc,
}
use dal.Lock.Raw.{Outcome, pending, acquired, busy}
use dal.Lock.Cohort.{decrement, is_natural, Mode, by_lock, by_trylock}
use dal.Lock.Ticket
use dal.Lock.Ticket.{Counters, draw, spin, read_request, try_cas, u32}

-- litl2/include/ctkttkt.h
abbrev pub batch_count : ℤ
batch_count = pos 100

pub record Cohort : Type 0 where
  pub local_locks : ℕ → Counters
  pub top_grant : ℕ → Bool
  pub batch : ℕ → ℤ  -- batch_count of each local lock
  pub top_lock : Counters
  pub top_home : Option ℕ

-- `ctkt_mutex_create`: memset
abbrev pub zeroed : Cohort
zeroed = record {
  local_locks = λ k. record { request = 0; grant = 0 };
  top_grant = λ k. false;
  batch = λ k. pos 0;
  top_lock = record { request = 0; grant = 0 };
  top_home = none;
}

pub data Poll : Type 0 where
  at_local : (q : Ticket.Poll) → Poll
  look : Mode → Poll  -- the test of `top_grant`
  clear : Poll
  at_top : (q : Ticket.Poll) → Poll
  set_home : Poll
  give_up : (r : Ticket.Leave) → Poll  -- a trylock that fails on the upper lock

-- `g` is the local grant that the release started from.
pub data Leave : Type 0 where
  read_home : Leave
  read_grant : (k : ℕ) → Leave
  test_request : (k g : ℕ) → Leave
  count : (k g : ℕ) → Leave
  set_grant : (k g : ℕ) → Leave
  reset : (k g : ℕ) → Leave
  release_top : (k g : ℕ) → Ticket.Leave → Leave
  store_grant : (k g : ℕ) → Leave  -- the last store, of the local grant

abbrev pub mode_of : Ticket.Poll → Mode
mode_of draw = by_lock
mode_of (spin t) = by_lock
mode_of read_request = by_trylock
mode_of (try_cas me) = by_trylock

abbrev pub top_entry : Mode → Ticket.Poll
top_entry by_lock = draw
top_entry by_trylock = read_request

abbrev pub after_local : Mode → Outcome Ticket.Poll → Outcome Poll
after_local mode (pending q) = pending (at_local q)
after_local mode acquired = pending (look mode)
after_local mode busy = busy

abbrev pub after_top : Outcome Ticket.Poll → Outcome Poll
after_top (pending q) = pending (at_top q)
after_top acquired = pending set_home
after_top busy = pending (give_up Ticket.read_grant)

abbrev pub after_give_up : Option Ticket.Leave → Outcome Poll
after_give_up (some r) = pending (give_up r)
after_give_up none = busy

-- A NULL home cannot be read: the thread stops.
abbrev pub from_home : Option ℕ → Leave
from_home none = read_home
from_home (some k) = read_grant k

abbrev pub after_top_release : ℕ → ℕ → Option Ticket.Leave → Leave
after_top_release k g (some r) = release_top k g r
after_top_release k g none = store_grant k g

module _ (node : ℕ → ℕ) where
  unfoldable pub poll : ℕ → Cohort → Poll → Cohort × Outcome Poll
  poll i m (at_local q) = (
    record m {
      local_locks = update m.local_locks (node i) (Ticket.poll i (m.local_locks (node i)) q).0;
    },
    after_local (mode_of q) (Ticket.poll i (m.local_locks (node i)) q).1,
  )
  poll i m (look mode) =
      (m, pending (if m.top_grant (node i) then clear else at_top (top_entry mode)))
  poll i m clear = (record m { top_grant = update m.top_grant (node i) false }, acquired)
  poll i m (at_top q) = (
    record m { top_lock = (Ticket.poll (node i) m.top_lock q).0 },
    after_top (Ticket.poll (node i) m.top_lock q).1,
  )
  poll i m set_home = (record m { top_home = some (node i) }, acquired)
  poll i m (give_up r) = (
    record m {
      local_locks = update m.local_locks (node i) (Ticket.leave i (m.local_locks (node i)) r).0;
    },
    after_give_up (Ticket.leave i (m.local_locks (node i)) r).1,
  )

  unfoldable pub leave : ℕ → Cohort → Leave → Cohort × Option Leave
  leave i m read_home = (m, some (from_home m.top_home))
  leave i m (read_grant k) = (m, some (test_request k (m.local_locks k).grant))
  leave i m (test_request k g) = (
    m,
    some (
        if (m.local_locks k).request == u32 (g + 1)
        then release_top k g Ticket.read_grant
        else count k g),
  )
  leave i m (count k g) = (
    record m { batch = update m.batch k (decrement (m.batch k)) },
    some (if is_natural (decrement (m.batch k)) then set_grant k g else reset k g),
  )
  leave i m (set_grant k g) =
      (record m { top_grant = update m.top_grant k true }, some (store_grant k g))
  leave i m (reset k g) =
      (record m { batch = update m.batch k batch_count }, some (release_top k g Ticket.read_grant))
  leave i m (release_top k g r) = (
    record m { top_lock = (Ticket.leave k m.top_lock r).0 },
    some (after_top_release k g (Ticket.leave k m.top_lock r).1),
  )
  leave i m (store_grant k g) = (
    record m {
      local_locks =
          update m.local_locks k (Ticket.leave i (m.local_locks k) (Ticket.write_grant g)).0;
    },
    none,
  )
