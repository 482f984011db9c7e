-- ===== src/Posix.antt =====
-- The pthread mutex that every lock keeps beside its own word (`posix_lock`, reached through
-- `REAL(...)`): the C library implements it, so it is a parameter. What the code relies on is the
-- documented behaviour: a locked mutex has one owner, `pthread_mutex_lock` gives a free mutex to the
-- caller and blocks on any other, `pthread_mutex_unlock` by the owner frees it.
use dal.Prelude.{ℕ, ◌≡◌, refl, Bool, true, false, Option, none, some}

pub record PosixMutex : Type 1 where
  pub State : Type 0
  pub fresh : State
  pub owner : State → Option ℕ
  -- the state after the mutex was given to the caller
  pub taken : ℕ → State → State
  -- the state after the owner's unlock
  pub freed : ℕ → State → State
  pub owner-fresh : owner fresh ≡ none
  pub owner-taken : (i : ℕ) (s : State) → owner s ≡ none → owner (taken i s) ≡ some i
  pub owner-freed : (i : ℕ) (s : State) → owner s ≡ some i → owner (freed i s) ≡ none

abbrev pub is_free : Option ℕ → Bool
is_free none = true
is_free (some _) = false

-- A mutex that is just its owner meets the requirements.
abbrev pub owner_cell : PosixMutex
owner_cell = record {
  State = Option ℕ;
  fresh = none;
  owner = λ s. s;
  taken = λ i s. some i;
  freed = λ i s. none;
  owner-fresh = refl;
  owner-taken = λ i s h. refl;
  owner-freed = λ i s h. refl;
}
