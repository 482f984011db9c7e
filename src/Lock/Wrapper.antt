-- ===== src/Lock/Wrapper.antt =====
-- `X_mutex_lock`, `X_mutex_trylock`, `X_mutex_unlock` and `X_cond_timedwait` around a lock
-- algorithm, as litl2/src builds them (COND_VAR is 1 in litl2/Makefile): the posix mutex is taken
-- after the lock and given back before it, and a waiter gives the lock back before it sleeps on the
-- posix mutex. One step of a thread is one access to shared memory or one call of the C library.
use dal.Prelude.{ℕ, Bool, true, false, Option, none, some, if◌then◌else◌}
use dal.Posix.{PosixMutex, is_free}
use dal.Lock.Raw.{RawLock, Raw, Outcome, pending, acquired, busy}

-- Which call a thread is in while it polls.
pub data Entry : Type 0 where
  by_lock by_trylock by_wait : Entry

-- The last return of a thread that is outside: 0, or EBUSY from a trylock.
pub data Ret : Type 0 where
  zero_ret ebusy : Ret

pub data Pc (Q R : Type 0) : Type 0 where
  outside : Ret → Pc Q R
  acquiring : Entry → Q → Pc Q R
  locking_posix : Pc Q R  -- REAL(pthread_mutex_lock), the lock is held
  trying_posix : Pc Q R  -- the loop on REAL(pthread_mutex_trylock), the lock is held
  critical : Pc Q R  -- `X_mutex_lock` or `X_mutex_trylock` returned 0
  unlocking : R → Pc Q R  -- the posix mutex is given back, the lock not yet
  wait_unlocking : R → Pc Q R  -- `X_cond_timedwait` gives the lock back
  wait_entering : Pc Q R  -- before REAL(pthread_cond_wait)
  asleep : Pc Q R  -- in REAL(pthread_cond_wait)
  awake : Pc Q R  -- REAL(pthread_cond_wait) returned, with the posix mutex

-- What the program does next where the code leaves it a choice; `wake` ends the sleep of a waiter,
-- by a signal, a timeout or spuriously.
pub data Choice : Type 0 where
  call_lock call_trylock call_unlock call_wait wake proceed : Choice

abbrev pub raw_of : {Q R : Type 0} → Pc Q R → Raw Q R
raw_of (outside _) = Raw.idle
raw_of (acquiring _ q) = Raw.polling q
raw_of locking_posix = Raw.held
raw_of trying_posix = Raw.held
raw_of critical = Raw.held
raw_of (unlocking r) = Raw.leaving r
raw_of (wait_unlocking r) = Raw.leaving r
raw_of wait_entering = Raw.idle
raw_of asleep = Raw.idle
raw_of awake = Raw.idle

abbrev pub owns_posix : {Q R : Type 0} → Pc Q R → Bool
owns_posix critical = true
owns_posix (wait_unlocking _) = true
owns_posix wait_entering = true
owns_posix awake = true
owns_posix _ = false

pub record Memory (L P : Type 0) : Type 0 where
  pub raw : L
  pub posix : P

-- What follows a round of polling.
abbrev pub after_poll : {Q R : Type 0} → Entry → Outcome Q → Pc Q R
after_poll e (pending q) = acquiring e q
after_poll by_trylock acquired = trying_posix
after_poll by_lock acquired = locking_posix
after_poll by_wait acquired = locking_posix
after_poll e busy = outside ebusy

abbrev pub after_unlock : {Q R : Type 0} → Option R → Pc Q R
after_unlock none = outside zero_ret
after_unlock (some r) = unlocking r

abbrev pub after_wait_unlock : {Q R : Type 0} → Option R → Pc Q R
after_wait_unlock none = wait_entering
after_wait_unlock (some r) = wait_unlocking r

module _ (lock : RawLock) (posix : PosixMutex) where
  open lock use {Mem, Poll, Leave, create, lock_entry, trylock_entry, unlock_entry, poll, leave}
  open posix use {State, fresh, owner, taken, freed}

  -- A call that gives the posix mutex to thread `i`, or leaves it blocked (or looping) at `from`.
  unfoldable pub take_posix :
      ℕ → Memory Mem State → Pc Poll Leave → Pc Poll Leave → Memory Mem State × Pc Poll Leave
  take_posix i m from to =
      if is_free (owner m.posix) then (record m { posix = taken i m.posix }, to) else (m, from)

  unfoldable pub step :
      ℕ → Choice → Memory Mem State → Pc Poll Leave → Memory Mem State × Pc Poll Leave
  unfolding take_posix
  step i call_lock m (outside _) = (m, acquiring by_lock lock_entry)
  step i call_trylock m (outside _) = (m, acquiring by_trylock trylock_entry)
  step i _ m (outside r) = (m, outside r)
  step i _ m (acquiring e q) =
      (record m { raw = (poll i m.raw q).0 }, after_poll e (poll i m.raw q).1)
  step i _ m locking_posix = take_posix i m locking_posix critical
  step i _ m trying_posix = take_posix i m trying_posix critical
  step i call_unlock m critical = (record m { posix = freed i m.posix }, unlocking unlock_entry)
  step i call_wait m critical = (m, wait_unlocking unlock_entry)
  step i _ m critical = (m, critical)
  step i _ m (unlocking r) =
      (record m { raw = (leave i m.raw r).0 }, after_unlock (leave i m.raw r).1)
  step i _ m (wait_unlocking r) =
      (record m { raw = (leave i m.raw r).0 }, after_wait_unlock (leave i m.raw r).1)
  step i _ m wait_entering = (record m { posix = freed i m.posix }, asleep)
  step i wake m asleep = take_posix i m asleep awake
  step i _ m asleep = (m, asleep)
  step i _ m awake = (record m { posix = freed i m.posix }, acquiring by_wait lock_entry)

  -- `X_mutex_create`
  abbrev pub created : Memory Mem State
  created = record { raw = create; posix = fresh }
