-- ===== src/Tests/Interposition.antt =====
-- The interposed calls under short schedules of two threads.
use dal.Prelude.{ℕ, ◌<◌, ◌≡◌, ◌≢◌, ◌↔◌, refl, false, some, List, [], ◌∷◌, ◌++◌, arith}
use dal.Interleave.{turn, run}
use dal.Posix.{owner_cell}
use dal.Lock.Raw.{held}
use dal.Lock.Wrapper
use dal.Lock.Wrapper.{call_lock, raw_of, take_posix}
use dal.Lock.Spinlock
use dal.Lock.Spinlock.{spinlock}
use dal.Interpose
use dal.Interpose.Program.{Event, outer, inner, worked, work, interposed_exclusion}
use dal.Interpose.{
  max_threads, using, losing, crashed, to_use, Choice, call_use, proceed, draw_id, advance, step,
}
use dal.Interpose.Table.{lookups}
use dal.Interpose.Ledger.{owns, id_of}
use dal.Interpose.Steps.{reached}
use dal.Interpose.Safety.{one_lock_per_mutex, contexts_differ, freed_once}
use dal.Interpose.Leak.{lost_lock_stays}

-- Threads 0 and 1 both find no lock for mutex 7 and create one. Thread 0 inserts its own first.
abbrev race : List (ℕ × Choice)
race =
    (0, proceed)
    ∷ (1, proceed)
    ∷ (0, call_use 7)
    ∷ (1, call_use 7)
    ∷ (0, proceed)
    ∷ (1, proceed)
    ∷ (0, proceed)
    ∷ (1, proceed)
    ∷ (0, proceed)
    ∷ (1, proceed)
    ∷ []

race_1 : (reached lookups race).pc 1 ≡ losing 1 7 1 to_use
unfolding run turn step advance draw_id
race_1 = refl

-- Thread 1 frees the lock that it made, and finds that of thread 0.
abbrev rest : List (ℕ × Choice)
rest = (1, proceed) ∷ (1, proceed) ∷ []

rest_0 : (reached lookups (race ++ rest)).pc 0 ≡ using 0 7 0
unfolding run turn step advance draw_id
rest_0 = refl

rest_1 : (reached lookups (race ++ rest)).pc 1 ≡ using 1 7 0
unfolding run turn step advance draw_id
rest_1 = refl

one_lock_per_mutex_example :
    (◌≡◌ {A = ℕ} 7 7 ↔ ◌≡◌ {A = ℕ} 0 0)
    × ((reached lookups (race ++ rest)).mem.freed 0 ≡ false)
    × ((reached lookups (race ++ rest)).mem.destroyed 0 ≡ false)
one_lock_per_mutex_example =
    one_lock_per_mutex lookups (race ++ rest) (ground arith) 0 1 0 1 7 7 0 0 rest_0 rest_1

contexts_differ_example : ◌≢◌ {A = ℕ} 0 1 × (0 < max_threads) × (1 < max_threads)
contexts_differ_example =
    contexts_differ lookups (race ++ rest) 0 1 0 1 7 7 0 0 (omega arith) rest_0 rest_1

race_owns : owns ((reached lookups race).pc 1) ≡ some 1
race_owns = rw race_1 refl

freed_once_example :
    ((reached lookups race).mem.freed 1 ≡ false)
    × ((x : ℕ) → lookups.get (reached lookups race).mem.table x ≢ some 1)
    × ((j : ℕ) → owns ((reached lookups race).pc j) ≡ some 1 → 1 ≡ j)
freed_once_example = freed_once lookups race 1 1 race_owns

lost_lock_stays_example : (reached lookups (race ++ rest)).mem.destroyed 1 ≡ false
lost_lock_stays_example = lost_lock_stays lookups 1 race rest 1 1 7 to_use race_1

-- Thread 0 locks mutex 7, thread 1 tries to.
abbrev contended : List (ℕ × Event)
contended =
    (0, outer Interpose.proceed)
    ∷ (1, outer Interpose.proceed)
    ∷ (0, outer (call_use 7))
    ∷ (0, outer Interpose.proceed)
    ∷ (0, outer Interpose.proceed)
    ∷ (0, outer Interpose.proceed)
    ∷ (1, outer (call_use 7))
    ∷ (1, outer Interpose.proceed)
    ∷ (0, inner call_lock)
    ∷ (0, inner Wrapper.proceed)
    ∷ (1, inner call_lock)
    ∷ (1, inner Wrapper.proceed)
    ∷ (0, inner Wrapper.proceed)
    ∷ []

contended_ids :
    (id_of ((worked lookups spinlock owner_cell contended).pc 0) ≡ some 0)
    × (id_of ((worked lookups spinlock owner_cell contended).pc 1) ≡ some 1)
unfolding run turn work step advance draw_id Wrapper.step take_posix Spinlock.poll
contended_ids = (refl, refl)

contended_entry :
    lookups.get (worked lookups spinlock owner_cell contended).mem.process.table 7 ≡ some 0
unfolding run turn work step advance draw_id Wrapper.step take_posix Spinlock.poll
contended_entry = refl

contended_0 : raw_of ((worked lookups spinlock owner_cell contended).mem.place 0 0) ≡ held
unfolding run turn work step advance draw_id Wrapper.step take_posix Spinlock.poll
contended_0 = refl

interposed_exclusion_example :
    raw_of ((worked lookups spinlock owner_cell contended).mem.place 0 1) ≢ held
interposed_exclusion_example =
    interposed_exclusion lookups spinlock owner_cell contended tt 0 1 0 1 7 0 (omega arith)
      contended_ids.0 contended_ids.1 contended_entry contended_0
