-- ===== src/Lock/Raw.antt =====
-- A lock algorithm as a machine: how a thread polls for the lock, and how it leaves. The laws say
-- that an invariant is kept by every step and that two holders are one thread.
use dal.Prelude.{ℕ, zero, suc, ◌<◌, ◌≡◌, Option, none, some, update}

-- Where a thread stands, with the locals of the loop that it is in.
pub data Raw (Q R : Type 0) : Type 0 where
  idle : Raw Q R
  polling : Q → Raw Q R
  held : Raw Q R
  leaving : R → Raw Q R

-- What one round of an acquire comes to: go on, the lock is taken, or EBUSY.
pub data Outcome (Q : Type 0) : Type 0 where
  pending : Q → Outcome Q
  acquired : Outcome Q
  busy : Outcome Q

abbrev pub settle : {Q R : Type 0} → Outcome Q → Raw Q R
settle (pending q) = polling q
settle acquired = held
settle busy = idle

abbrev pub settle_leave : {Q R : Type 0} → Option R → Raw Q R
settle_leave none = idle
settle_leave (some r) = leaving r

module _ {M Q : Type 0} (poll : ℕ → M → Q → M × Outcome Q) (i : ℕ) where
  -- At most `n` rounds of an acquire that no other thread interrupts.
  unfoldable pub attempt : ℕ → M → Outcome Q → M × Outcome Q
  attempt zero m o = (m, o)
  attempt (suc n) m (pending q) = attempt n (poll i m q).0 (poll i m q).1
  attempt (suc n) m o = (m, o)

module _ {M R : Type 0} (leave : ℕ → M → R → M × Option R) (i : ℕ) where
  -- At most `n` steps of a release that no other thread interrupts.
  unfoldable pub alone : ℕ → M → Option R → M × Option R
  alone zero m r = (m, r)
  alone (suc n) m none = (m, none)
  alone (suc n) m (some r) = alone n (leave i m r).0 (leave i m r).1

pub record RawLock : Type 1 where
  pub Mem : Type 0
  pub Poll : Type 0
  pub Leave : Type 0
  pub create : Mem
  pub lock_entry : Poll
  pub trylock_entry : Poll
  pub unlock_entry : Leave
  pub poll : ℕ → Mem → Poll → Mem × Outcome Poll
  pub leave : ℕ → Mem → Leave → Mem × Option Leave
  -- the numbers of threads that the algorithm serves
  pub Fits : ℕ → Type 0
  pub Inv : ℕ → Mem → (ℕ → Raw Poll Leave) → Type 0
  pub inv_create : {n : ℕ} → Fits n → Inv n create (λ _. idle)
  pub inv_lock :
      {n : ℕ} {m : Mem} {pc : ℕ → Raw Poll Leave} (i : ℕ)
      → Inv n m pc
      → i < n
      → pc i ≡ idle
      → Inv n m (update pc i (polling lock_entry))
  pub inv_trylock :
      {n : ℕ} {m : Mem} {pc : ℕ → Raw Poll Leave} (i : ℕ)
      → Inv n m pc
      → i < n
      → pc i ≡ idle
      → Inv n m (update pc i (polling trylock_entry))
  pub inv_poll :
      {n : ℕ} {m : Mem} {pc : ℕ → Raw Poll Leave} (i : ℕ) (q : Poll)
      → Inv n m pc
      → i < n
      → pc i ≡ polling q
      → Inv n (poll i m q).0 (update pc i (settle (poll i m q).1))
  pub inv_unlock :
      {n : ℕ} {m : Mem} {pc : ℕ → Raw Poll Leave} (i : ℕ)
      → Inv n m pc
      → i < n
      → pc i ≡ held
      → Inv n m (update pc i (leaving unlock_entry))
  pub inv_leave :
      {n : ℕ} {m : Mem} {pc : ℕ → Raw Poll Leave} (i : ℕ) (r : Leave)
      → Inv n m pc
      → i < n
      → pc i ≡ leaving r
      → Inv n (leave i m r).0 (update pc i (settle_leave (leave i m r).1))
  pub exclusive :
      {n : ℕ} {m : Mem} {pc : ℕ → Raw Poll Leave} (i j : ℕ)
      → Inv n m pc
      → i < n
      → j < n
      → pc i ≡ held
      → pc j ≡ held
      → i ≡ j
