-- ===== src/Lock/Cbomcs/Places.antt =====
-- The locks of the cohort lock cbomcs.c: the queue of each node, and who has the upper lock, which is
-- a thread or, while it passes between threads of a node, the flag of that node.
use dal.Prelude.{ℕ, ◌≡◌, ◌≢◌, Bool, true, false, Option, some}
use dal.Lock.Raw.{Raw, idle, polling, held, leaving}
use dal.Lock.Word.{unlocked}
use dal.Lock.Cohort.{side}
use dal.Lock.Mcs
use dal.Lock.Mcs.Queue
use dal.Lock.Cbomcs.{
  Cohort, Poll, at_local, clear, set_home, give_up, Leave, test_tail, count, set_grant, pass_local,
  reset, drop_local, store_top,
}

-- Where a thread stands in the lock of its node.
abbrev pub local_place : Raw Poll Leave → Raw Mcs.Poll Mcs.Leave
local_place idle = idle
local_place (polling (at_local mode q)) = polling q
local_place (polling (give_up r)) = leaving r
local_place (polling _) = held
local_place held = held
local_place (leaving (pass_local k r)) = leaving r
local_place (leaving (drop_local k r)) = leaving r
local_place (leaving store_top) = idle
local_place (leaving _) = held

-- A thread that has the upper lock.
abbrev pub owns : Raw Poll Leave → Bool
owns idle = false
owns (polling set_home) = true
owns (polling _) = false
owns held = true
owns (leaving (pass_local k r)) = false
owns (leaving _) = true

-- Its node is the home.
abbrev pub at_home : Raw Poll Leave → Bool
at_home held = true
at_home (leaving (pass_local k r)) = false
at_home (leaving (drop_local k r)) = false
at_home (leaving store_top) = false
at_home (leaving _) = true
at_home _ = false

-- A thread that is about to clear the flag of its node.
abbrev pub clears : Raw Poll Leave → Bool
clears (polling clear) = true
clears _ = false

-- A release works on the thread's own node.
abbrev pub AtOwn : ℕ → Raw Poll Leave → Type 0
AtOwn n (leaving (test_tail k)) = k ≡ n
AtOwn n (leaving (count k)) = k ≡ n
AtOwn n (leaving (set_grant k)) = k ≡ n
AtOwn n (leaving (pass_local k r)) = k ≡ n
AtOwn n (leaving (reset k)) = k ≡ n
AtOwn n (leaving (drop_local k r)) = k ≡ n
AtOwn n _ = Unit

module _ (node : ℕ → ℕ) where
  -- The upper lock, its flags and its home.
  pub record Top (grant : ℕ → Bool) (word : ℕ) (home : Option ℕ) (pc : ℕ → Raw Poll Leave)
      : Type 0 where
    pub taken : (i : ℕ) → owns (pc i) ≡ true → word ≢ unlocked
    pub flagged : (k : ℕ) → grant k ≡ true → (word ≢ unlocked) × (home ≡ some k)
    pub one : (i j : ℕ) → owns (pc i) ≡ true → owns (pc j) ≡ true → i ≡ j
    pub apart : (i k : ℕ) → owns (pc i) ≡ true → grant k ≡ false
    pub homes : (i : ℕ) → at_home (pc i) ≡ true → home ≡ some (node i)
    pub cleared : (i : ℕ) → clears (pc i) ≡ true → grant (node i) ≡ true
    pub own : (i : ℕ) → AtOwn (node i) (pc i)

  pub record Inv (m : Cohort) (pc : ℕ → Raw Poll Leave) : Type 0 where
    pub below : (k : ℕ) → Queue.Inv (m.local_locks k) (side local_place node k pc)
    pub top : Top m.top_grant m.top_word m.top_home pc
