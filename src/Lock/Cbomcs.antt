-- ===== src/Lock/Cbomcs.antt =====
-- litl2/src/cbomcs.c: an MCS lock for each NUMA node and a backoff lock above them. A thread that
-- releases may leave the upper lock to its successor of its node (`top_grant`), BATCH_COUNT times in
-- a row. `node i` is the node on which thread `i` calls (`current_numa_node`). The context of a
-- thread is a node of the queue of its own NUMA node, and kept with it.
pub mod Places
pub mod Moves
pub mod Acquire
pub mod Release
pub mod Kept
pub mod Handover
pub mod Steps
use dal.Prelude.{ℕ, Bool, true, false, Option, none, some, update, ◌==◌, if◌then◌else◌, ℤ, pos}
use dal.Lock.Raw.{Outcome, pending, acquired, busy}
use dal.Lock.Word.{unlocked}
use dal.Lock.Cohort.{Mode, by_lock, by_trylock, decrement, is_natural}
use dal.Lock.Mcs
use dal.Lock.Mcs.{Nodes, is_node}
use dal.Lock.Backoff
use dal.Lock.Backoff.{default_backoff_delay}

-- litl2/include/cbomcs.h
abbrev pub batch_count : ℤ
batch_count = pos 100

pub record Cohort : Type 0 where
  pub local_locks : ℕ → Nodes
  pub top_grant : ℕ → Bool
  pub batch : ℕ → ℤ  -- batch_count of each local lock
  pub top_word : ℕ
  pub top_home : Option ℕ

-- `cbomcs_mutex_create`; the contexts are the threads' own.
abbrev pub created : (ℕ → Option ℕ) → (ℕ → ℕ) → Cohort
created next spin = record {
  local_locks = λ k. record { tail = none; next = next; spin = spin };
  top_grant = λ k. false;
  batch = λ k. pos 0;
  top_word = unlocked;
  top_home = none;
}

pub data Poll : Type 0 where
  at_local : Mode → (q : Mcs.Poll) → Poll
  look : Mode → Poll  -- the test of `top_grant`
  clear : Poll
  at_top : (q : Backoff.Poll) → Poll
  set_home : Poll
  give_up : (r : Mcs.Leave) → Poll  -- a trylock that fails on the upper lock

pub data Leave : Type 0 where
  read_home : Leave
  test_tail : (k : ℕ) → Leave  -- `__mcs_mutex_anybody_there`
  count : (k : ℕ) → Leave
  set_grant : (k : ℕ) → Leave
  pass_local : (k : ℕ) → Mcs.Leave → Leave  -- the local lock, with the upper one
  reset : (k : ℕ) → Leave
  drop_local : (k : ℕ) → Mcs.Leave → Leave  -- the local lock, before the upper one
  store_top : Leave

abbrev pub top_entry : Mode → Backoff.Poll
top_entry by_lock = Backoff.watch default_backoff_delay
top_entry by_trylock = Backoff.tas_once

abbrev pub after_local : Mode → Outcome Mcs.Poll → Outcome Poll
after_local mode (pending q) = pending (at_local mode q)
after_local mode acquired = pending (look mode)
after_local mode busy = busy

abbrev pub after_top : Outcome Backoff.Poll → Outcome Poll
after_top (pending q) = pending (at_top q)
after_top acquired = pending set_home
after_top busy = pending (give_up Mcs.read_next)

abbrev pub after_give_up : Option Mcs.Leave → Outcome Poll
after_give_up (some r) = pending (give_up r)
after_give_up none = busy

-- A NULL home cannot be read: the thread stops.
abbrev pub from_home : Option ℕ → Leave
from_home none = read_home
from_home (some k) = test_tail k

abbrev pub after_pass : ℕ → Option Mcs.Leave → Option Leave
after_pass k (some r) = some (pass_local k r)
after_pass k none = none

abbrev pub after_drop : ℕ → Option Mcs.Leave → Leave
after_drop k (some r) = drop_local k r
after_drop k none = store_top

module _ (node : ℕ → ℕ) where
  unfoldable pub poll : ℕ → Cohort → Poll → Cohort × Outcome Poll
  poll i m (at_local mode q) = (
    record m {
      local_locks = update m.local_locks (node i) (Mcs.poll i (m.local_locks (node i)) q).0;
    },
    after_local mode (Mcs.poll i (m.local_locks (node i)) q).1,
  )
  poll i m (look mode) =
      (m, pending (if m.top_grant (node i) then clear else at_top (top_entry mode)))
  poll i m clear = (record m { top_grant = update m.top_grant (node i) false }, acquired)
  poll i m (at_top q) = (
    record m { top_word = (Backoff.poll i m.top_word q).0 },
    after_top (Backoff.poll i m.top_word q).1,
  )
  poll i m set_home = (record m { top_home = some (node i) }, acquired)
  poll i m (give_up r) = (
    record m {
      local_locks = update m.local_locks (node i) (Mcs.leave i (m.local_locks (node i)) r).0;
    },
    after_give_up (Mcs.leave i (m.local_locks (node i)) r).1,
  )

  unfoldable pub leave : ℕ → Cohort → Leave → Cohort × Option Leave
  leave i m read_home = (m, some (from_home m.top_home))
  leave i m (test_tail k) =
      (m, some (if is_node i (m.local_locks k).tail then drop_local k Mcs.read_next else count k))
  leave i m (count k) = (
    record m { batch = update m.batch k (decrement (m.batch k)) },
    some (if is_natural (decrement (m.batch k)) then set_grant k else reset k),
  )
  leave i m (set_grant k) =
      (record m { top_grant = update m.top_grant k true }, some (pass_local k Mcs.read_next))
  leave i m (pass_local k r) = (
    record m { local_locks = update m.local_locks k (Mcs.leave i (m.local_locks k) r).0 },
    after_pass k (Mcs.leave i (m.local_locks k) r).1,
  )
  leave i m (reset k) =
      (record m { batch = update m.batch k batch_count }, some (drop_local k Mcs.read_next))
  leave i m (drop_local k r) = (
    record m { local_locks = update m.local_locks k (Mcs.leave i (m.local_locks k) r).0 },
    some (after_drop k (Mcs.leave i (m.local_locks k) r).1),
  )
  leave i m store_top = (record m { top_word = unlocked }, none)
