-- ===== src/Lock/Safety.antt =====
-- What every wrapped lock guarantees, in each state that its threads reach.
use dal.Prelude.{ℕ, ◌<◌, ◌≡◌, ◌≢◌, ◌↔◌, true, some, none, List, All, arith, inl, inr, Option-cases}
use dal.Interleave.{System}
use dal.Posix.{PosixMutex}
use dal.Lock.Raw.{RawLock, held}
use dal.Lock.Wrapper.{Pc, Choice, Memory, raw_of, owns_posix, outside, Ret}
use dal.Lock.Invariant.{SysInv, reached, reached-SysInv}

module _ (lock : RawLock) (posix : PosixMutex) {n : ℕ} (l : List (ℕ × Choice)) (fits : lock.Fits n)
    (small : All (λ e. e.0 < n) l) where
  abbrev state : System (Memory lock.Mem posix.State) (Pc lock.Poll lock.Leave)
  state = reached lock posix l

  inv : SysInv lock posix n state.mem state.pc
  inv = reached-SysInv lock posix l fits small

  -- While a thread below `n` holds the lock, from the end of the algorithm's acquire up to the start of its release, no other thread below `n` holds it.
  pub holders_exclusive :
      (i j : ℕ) → i < n → j < n → i ≢ j → raw_of (state.pc i) ≡ held → raw_of (state.pc j) ≢ held
  holders_exclusive i j lti ltj differ hi hj = differ (lock.exclusive i j inv.raw lti ltj hi hj)

  -- The posix mutex is owned by a thread exactly while it is in the critical section, or on its way into the sleep of a wait, or just out of it.
  pub owner_iff :
      (j : ℕ) → (posix.owner state.mem.posix ≡ some j) ↔ (owns_posix (state.pc j) ≡ true)
  owner_iff j = (inv.theirs j, inv.mine j)

  -- Once every thread is outside, the posix mutex is free again.
  pub outside_free :
      ((j : ℕ) → (r : Ret) × (state.pc j ≡ outside r)) → posix.owner state.mem.posix ≡ none
  outside_free out = elim (Option-cases (posix.owner state.mem.posix)) [
    | inl e ↦ e
    | inr (j, e) ↦ let (r, o) = out j in absurd (ground (arith, inv.theirs j))
  ]
