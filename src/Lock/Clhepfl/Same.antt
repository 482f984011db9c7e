-- ===== src/Lock/Clhepfl/Same.antt =====
-- litl2/src/clhepfl.c behaves as litl2/src/clh.c, under every schedule.
use dal.Prelude.{ℕ, ◌≡◌, ◌≢◌, refl, ap, ◌∙◌, none, List, [], ◌∷◌, update, Bool-cases, inl, inr}
use dal.Interleave.{System, turn, run}
use dal.Posix.{PosixMutex, is_free}
use dal.Lock.Clh.Steps.{clh}
use dal.Lock.Wrapper.{
  Pc, outside, acquiring, locking_posix, trying_posix, critical, unlocking, wait_unlocking,
  wait_entering, asleep, awake, Choice, call_lock, call_trylock, call_unlock, call_wait, wake,
  Memory, after_poll, after_unlock, after_wait_unlock, step, take_posix,
}
use dal.Lock.Invariant.{reached}
use dal.Lock.Clh
use dal.Lock.Clh.{Poll, Leave}
use dal.Lock.Clhepfl.{
  Nodes, view, clhepfl, poll-view, leave-view, poll_tail, leave_tail, created_tail,
}

module _ (posix : PosixMutex) where
  open posix use {State, owner}

  -- The state as clh.c has it.
  abbrev pub see : Memory Nodes State → Memory Clh.Nodes State
  see m = record { raw = view m.raw; posix = m.posix }

  abbrev pub image :
      System (Memory Nodes State) (Pc Poll Leave) → System (Memory Clh.Nodes State) (Pc Poll Leave)
  image s = record { mem = see s.mem; pc = s.pc }

  module _ (i : ℕ) (m : Memory Nodes State) (some_tail : m.raw.tail ≢ none) where
    take-see :
        (from to : Pc Poll Leave)
        → take_posix clh posix i (see m) from to
          ≡ (see (take_posix clhepfl posix i m from to).0, (take_posix clhepfl posix i m from to).1)
    unfolding take_posix
    take-see from to = elim (Bool-cases (is_free (owner m.posix))) [
      | inl e ↦ rw e refl
      | inr e ↦ rw e refl
    ]

    step-see :
        (c : Choice) (p : Pc Poll Leave)
        → step clh posix i c (see m) p
          ≡ (see (step clhepfl posix i c m p).0, (step clhepfl posix i c m p).1)
    unfolding step
    step-see call_lock (outside r) = refl
    step-see call_trylock (outside r) = refl
    step-see c (outside r) = refl
    step-see c (acquiring e q) =
        ap (λ r. (record (see m) { raw = r.0 }, after_poll e r.1)) (poll-view i m.raw q some_tail)
    step-see c locking_posix = take-see locking_posix critical
    step-see c trying_posix = take-see trying_posix critical
    step-see call_unlock critical = refl
    step-see call_wait critical = refl
    step-see c critical = refl
    step-see c (unlocking r) =
        ap (λ o. (record (see m) { raw = o.0 }, after_unlock o.1)) (leave-view i m.raw r)
    step-see c (wait_unlocking r) =
        ap (λ o. (record (see m) { raw = o.0 }, after_wait_unlock o.1)) (leave-view i m.raw r)
    step-see c wait_entering = refl
    step-see wake asleep = take-see asleep awake
    step-see c asleep = refl
    step-see c awake = refl

    take_tail : (from to : Pc Poll Leave) → (take_posix clhepfl posix i m from to).0.raw.tail ≢ none
    unfolding take_posix
    take_tail from to = elim (Bool-cases (is_free (owner m.posix))) [
      | inl e ↦ rw e some_tail
      | inr e ↦ rw e some_tail
    ]

    step_tail : (c : Choice) (p : Pc Poll Leave) → (step clhepfl posix i c m p).0.raw.tail ≢ none
    unfolding step
    step_tail call_lock (outside r) = some_tail
    step_tail call_trylock (outside r) = some_tail
    step_tail c (outside r) = some_tail
    step_tail c (acquiring e q) = poll_tail i m.raw q some_tail
    step_tail c locking_posix = take_tail locking_posix critical
    step_tail c trying_posix = take_tail trying_posix critical
    step_tail call_unlock critical = some_tail
    step_tail call_wait critical = some_tail
    step_tail c critical = some_tail
    step_tail c (unlocking r) = leave_tail i m.raw r some_tail
    step_tail c (wait_unlocking r) = leave_tail i m.raw r some_tail
    step_tail c wait_entering = some_tail
    step_tail wake asleep = take_tail asleep awake
    step_tail c asleep = some_tail
    step_tail c awake = some_tail

  run-image :
      (l : List (ℕ × Choice)) (s : System (Memory Nodes State) (Pc Poll Leave))
      → s.mem.raw.tail ≢ none
      → run (step clh posix) l (image s) ≡ image (run (step clhepfl posix) l s)
  unfolding run turn
  run-image [] s h = refl
  run-image ((i, c) ∷ l) s h =
      ap (λ r. run (step clh posix) l (record { mem = r.0; pc = update s.pc i r.1 }))
        (step-see i s.mem h c (s.pc i))
      ∙ run-image l (turn (step clhepfl posix) i c s) (step_tail i s.mem h c (s.pc i))

  -- Under every schedule the threads of the lock of clhepfl.c stand where those of the lock of clh.c do, with the same memory but for the type of the tail, which is never NULL: the test for a NULL predecessor makes no difference.
  pub clhepfl_runs_as_clh :
      (l : List (ℕ × Choice)) → reached clh posix l ≡ image (reached clhepfl posix l)
  clhepfl_runs_as_clh l = run-image l _ created_tail
