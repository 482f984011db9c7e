-- ===== src/Lock/Invariant.antt =====
-- The invariant of the wrapped lock: the algorithm's own, and who owns the posix mutex.
use dal.Prelude.{
  ℕ, ◌<◌, ◌≡◌, refl, ap, true, Option, none, some, List, All, update, map-update, update_same,
  arith, inl, inr, Bool-cases,
}
use dal.Interleave.{System, run, run_inv}
use dal.Posix.{PosixMutex, is_free}
use dal.Lock.Raw.{RawLock, Raw, Outcome, settle, settle_leave, pending, acquired, busy}
use dal.Lock.Wrapper.{
  Entry, by_lock, by_trylock, by_wait, Pc, outside, acquiring, locking_posix, trying_posix,
  critical, unlocking, wait_unlocking, wait_entering, asleep, awake, Choice, raw_of, owns_posix,
  Memory, after_poll, after_unlock, after_wait_unlock, step, created, zero_ret, call_lock,
  call_trylock, call_unlock, call_wait, wake,
}

raw_of-after_poll :
    {Q R : Type 0} (e : Entry) (o : Outcome Q) → raw_of {R = R} (after_poll e o) ≡ settle o
raw_of-after_poll e (pending q) = refl
raw_of-after_poll by_lock acquired = refl
raw_of-after_poll by_trylock acquired = refl
raw_of-after_poll by_wait acquired = refl
raw_of-after_poll e busy = refl

raw_of-after_unlock :
    {Q R : Type 0} (o : Option R) → raw_of {Q = Q} (after_unlock o) ≡ settle_leave o
raw_of-after_unlock none = refl
raw_of-after_unlock (some r) = refl

raw_of-after_wait_unlock :
    {Q R : Type 0} (o : Option R) → raw_of {Q = Q} (after_wait_unlock o) ≡ settle_leave o
raw_of-after_wait_unlock none = refl
raw_of-after_wait_unlock (some r) = refl

module _ (lock : RawLock) (posix : PosixMutex) where
  open lock use {
    Mem, Poll, Leave, Inv, inv_create, inv_lock, inv_trylock, inv_poll, inv_unlock, inv_leave, poll,
    leave, lock_entry, trylock_entry, unlock_entry,
  }
  open posix use {State, owner, owner-fresh, owner-taken, owner-freed}

  pub record SysInv (n : ℕ) (m : Memory Mem State) (pc : ℕ → Pc Poll Leave) : Type 0 where
    pub raw : Inv n m.raw (λ j. raw_of (pc j))
    pub mine : (j : ℕ) → owns_posix (pc j) ≡ true → owner m.posix ≡ some j
    pub theirs : (j : ℕ) → owner m.posix ≡ some j → owns_posix (pc j) ≡ true

  module _ (n : ℕ) (m : Memory Mem State) (pc : ℕ → Pc Poll Leave) (i : ℕ) where
    abbrev raws : ℕ → Raw Poll Leave
    raws j = raw_of (pc j)

    -- The algorithm's part of the invariant, from its state after the step.
    moved :
        (m' : Mem) (p' : Pc Poll Leave) (r : Raw Poll Leave)
        → raw_of p' ≡ r
        → Inv n m' (update raws i r)
        → Inv n m' (λ j. raw_of (update pc i p' j))
    moved m' p' r e h = rw (map-update raw_of pc i p', e) h

    stayed :
        (p' : Pc Poll Leave)
        → raw_of (pc i) ≡ raw_of p'
        → Inv n m.raw raws
        → Inv n m.raw (λ j. raw_of (update pc i p' j))
    stayed p' e h = rw (map-update raw_of pc i p', update_same raws i (raw_of p') e) h

    step-raw :
        (c : Choice) (p : Pc Poll Leave)
        → i < n
        → Inv n m.raw raws
        → pc i ≡ p
        → Inv n
            (step lock posix i c m p).0.raw
            (λ j. raw_of (update pc i (step lock posix i c m p).1 j))
    unfolding step
    step-raw call_lock (outside x) lt h e = moved m.raw _ _ refl (inv_lock i h lt (ap raw_of e))
    step-raw call_trylock (outside x) lt h e =
        moved m.raw _ _ refl (inv_trylock i h lt (ap raw_of e))
    step-raw c (outside x) lt h e = stayed _ (ap raw_of e) h
    step-raw c (acquiring x q) lt h e =
        moved _ _ _ (raw_of-after_poll x (poll i m.raw q).1) (inv_poll i q h lt (ap raw_of e))
    step-raw c locking_posix lt h e = elim (Bool-cases (is_free (owner m.posix))) [
      | inl t ↦ rw t (stayed critical (ap raw_of e) h)
      | inr t ↦ rw t (stayed locking_posix (ap raw_of e) h)
    ]
    step-raw c trying_posix lt h e = elim (Bool-cases (is_free (owner m.posix))) [
      | inl t ↦ rw t (stayed critical (ap raw_of e) h)
      | inr t ↦ rw t (stayed trying_posix (ap raw_of e) h)
    ]
    step-raw call_unlock critical lt h e = moved m.raw _ _ refl (inv_unlock i h lt (ap raw_of e))
    step-raw call_wait critical lt h e = moved m.raw _ _ refl (inv_unlock i h lt (ap raw_of e))
    step-raw c critical lt h e = stayed _ (ap raw_of e) h
    step-raw c (unlocking r) lt h e =
        moved _ _ _ (raw_of-after_unlock (leave i m.raw r).1) (inv_leave i r h lt (ap raw_of e))
    step-raw c (wait_unlocking r) lt h e =
        moved _ _ _ (raw_of-after_wait_unlock (leave i m.raw r).1)
          (inv_leave i r h lt (ap raw_of e))
    step-raw c wait_entering lt h e = stayed _ (ap raw_of e) h
    step-raw wake asleep lt h e = elim (Bool-cases (is_free (owner m.posix))) [
      | inl t ↦ rw t (stayed awake (ap raw_of e) h)
      | inr t ↦ rw t (stayed asleep (ap raw_of e) h)
    ]
    step-raw c asleep lt h e = stayed _ (ap raw_of e) h
    step-raw c awake lt h e = moved m.raw _ _ refl (inv_lock i h lt (ap raw_of e))

    -- Who owns the posix mutex, after the step.
    step-mine :
        (c : Choice) (p : Pc Poll Leave)
        → ((j : ℕ) → owns_posix (pc j) ≡ true → owner m.posix ≡ some j)
        → pc i ≡ p
        → (j : ℕ) → owns_posix (update pc i (step lock posix i c m p).1 j) ≡ true
        → owner (step lock posix i c m p).0.posix ≡ some j
    unfolding step
    step-mine c (outside x) mine e j h = ground (arith, mine j)
    step-mine c (acquiring x q) mine e j h = ground (arith, mine j)
    step-mine c locking_posix mine e j h = ground (arith, mine j, owner-taken i m.posix)
    step-mine c trying_posix mine e j h = ground (arith, mine j, owner-taken i m.posix)
    step-mine c critical mine e j h = ground (arith, mine i, mine j, owner-freed i m.posix)
    step-mine c (unlocking r) mine e j h = ground (arith, mine j)
    step-mine c (wait_unlocking r) mine e j h = ground (arith, mine i, mine j)
    step-mine c wait_entering mine e j h = ground (arith, mine i, mine j, owner-freed i m.posix)
    step-mine c asleep mine e j h = ground (arith, mine j, owner-taken i m.posix)
    step-mine c awake mine e j h = ground (arith, mine i, mine j, owner-freed i m.posix)

    step-theirs :
        (c : Choice) (p : Pc Poll Leave)
        → ((j : ℕ) → owns_posix (pc j) ≡ true → owner m.posix ≡ some j)
        → ((j : ℕ) → owner m.posix ≡ some j → owns_posix (pc j) ≡ true)
        → pc i ≡ p
        → (j : ℕ) → owner (step lock posix i c m p).0.posix ≡ some j
        → owns_posix (update pc i (step lock posix i c m p).1 j) ≡ true
    unfolding step
    step-theirs c (outside x) mine theirs e j h = ground (arith, theirs j)
    step-theirs c (acquiring x q) mine theirs e j h = ground (arith, theirs j)
    step-theirs c locking_posix mine theirs e j h = ground (arith, theirs j, owner-taken i m.posix)
    step-theirs c trying_posix mine theirs e j h = ground (arith, theirs j, owner-taken i m.posix)
    step-theirs c critical mine theirs e j h =
        ground (arith, mine i, theirs j, owner-freed i m.posix)
    step-theirs c (unlocking r) mine theirs e j h = ground (arith, theirs j)
    step-theirs c (wait_unlocking r) mine theirs e j h = ground (arith, mine i, theirs j)
    step-theirs c wait_entering mine theirs e j h =
        ground (arith, mine i, theirs j, owner-freed i m.posix)
    step-theirs c asleep mine theirs e j h = ground (arith, theirs j, owner-taken i m.posix)
    step-theirs c awake mine theirs e j h = ground (arith, mine i, theirs j, owner-freed i m.posix)

  pub SysInv-step :
      (n i : ℕ) (c : Choice) (m : Memory Mem State) (pc : ℕ → Pc Poll Leave)
      → i < n
      → SysInv n m pc
      → SysInv n (step lock posix i c m (pc i)).0 (update pc i (step lock posix i c m (pc i)).1)
  SysInv-step n i c m pc lt v = record {
    raw = step-raw n m pc i c (pc i) lt v.raw refl;
    mine = step-mine n m pc i c (pc i) v.mine refl;
    theirs = step-theirs n m pc i c (pc i) v.mine v.theirs refl;
  }

  abbrev pub start : System (Memory Mem State) (Pc Poll Leave)
  start = record { mem = created lock posix; pc = λ _. outside zero_ret }

  pub SysInv-start : {n : ℕ} → lock.Fits n → SysInv n start.mem start.pc
  SysInv-start fits = record {
    raw = inv_create fits;
    mine = λ j h. cc;
    theirs = λ j h. cc (owner-fresh);
  }

  -- A state that `n` threads reach from the created lock, by any schedule.
  abbrev pub reached : List (ℕ × Choice) → System (Memory Mem State) (Pc Poll Leave)
  reached l = run (step lock posix) l start

  pub reached-SysInv :
      {n : ℕ} (l : List (ℕ × Choice))
      → lock.Fits n
      → All (λ e. e.0 < n) l
      → SysInv n (reached l).mem (reached l).pc
  reached-SysInv {n} l fits small =
      run_inv (step lock posix) n (SysInv n) (SysInv-step n) l start small (SysInv-start fits)
