-- ===== src/Lock/Cbomcs/Steps.antt =====
-- The cohort lock cbomcs.c as an implementation of the interface.
use dal.Prelude.{ℕ, ◌≡◌, refl, Option, none, update, update_same, ==_refl, sym, subst}
use dal.Lock.Raw.{RawLock, Raw, idle, polling}
use dal.Lock.Cohort.{side, side-idle, Mode, by_lock, by_trylock}
use dal.Lock.Mcs
use dal.Lock.Mcs.{Nodes, is_node}
use dal.Lock.Mcs.Queue
use dal.Lock.Mcs.Steps as McsSteps
use dal.Lock.Mcs.Steps.{mcs}
use dal.Lock.Cbomcs.{Cohort, Poll, at_local, Leave, read_home, poll, leave, created}
use dal.Lock.Cbomcs.Places.{local_place, Inv}
use dal.Lock.Cbomcs.Moves.{quiet, locally}
use dal.Lock.Cbomcs.Kept.{Kept}
use dal.Lock.Cbomcs.Handover.{quietly, Kept-poll, Kept-leave}
use dal.Lock.Cbomcs.Acquire.{Inv-poll}
use dal.Lock.Cbomcs.Release.{Inv-leave, Inv-unlock}

module _ (node : ℕ → ℕ) where
  pub start : {next : ℕ → Option ℕ} {spin : ℕ → ℕ} → Inv node (created next spin) (λ _. idle)
  start {next} {spin} = record {
    below = λ k.
        subst (Queue.Inv (record { tail = none; next = next; spin = spin }))
          (sym (side-idle local_place node {p = idle} k refl)) McsSteps.start;
    top = record {
      taken = λ i h. cc;
      flagged = λ k h. cc;
      one = λ i j h h'. cc;
      apart = λ i k h. cc;
      homes = λ i h. cc;
      cleared = λ i h. cc;
      own = λ i. tt;
    };
  }

  pub unset :
      {next : ℕ → Option ℕ} {spin : ℕ → ℕ}
      → Kept node (created next spin).local_locks (created next spin).top_grant (λ _. idle)
  unset {next} {spin} = record { waiting = λ k h. cc; behind = λ j h. cc; passed = λ j h. refl }

  pub begin :
      {m : Cohort} {pc : ℕ → Raw Poll Leave} (v : Inv node m pc) (i : ℕ) (mode : Mode)
      (q : Mcs.Poll)
      → Queue.Inv
          (m.local_locks (node i))
          (update (side local_place node (node i) pc) i (polling q))
      → Inv node m (update pc i (polling (at_local mode q)))
  begin {m} {pc} v i mode q loc =
      subst (λ f. Inv node (record m { local_locks = f }) (update pc i (polling (at_local mode q))))
        (update_same m.local_locks (node i) (m.local_locks (node i)) refl)
        (record {
          below =
              locally v i (node i) (m.local_locks (node i)) (polling (at_local mode q)) refl loc;
          top = quiet v.top i (polling (at_local mode q)) (λ h. cc) (λ h. cc) (λ h. cc) tt;
        })

  pub at_rest :
      (pc : ℕ → Raw Poll Leave) (i : ℕ) → pc i ≡ idle → side local_place node (node i) pc i ≡ idle
  at_rest pc i e = rw (==_refl (node i), e) refl

-- The first values of the contexts are of no account.
module _ (node : ℕ → ℕ) (next : ℕ → Option ℕ) (spin : ℕ → ℕ) where
  abbrev pub cbomcs : RawLock
  cbomcs = record {
    Mem = Cohort;
    Poll = Poll;
    Leave = Leave;
    create = created next spin;
    lock_entry = at_local by_lock Mcs.clear_next;
    trylock_entry = at_local by_trylock Mcs.try_next;
    unlock_entry = read_home;
    poll = poll node;
    leave = leave node;
    Fits = λ n. Unit;
    Inv = λ n m pc. Inv node m pc × Kept node m.local_locks m.top_grant pc;
    inv_create = λ {n} f. (start node, unset node);
    inv_lock = λ {n} {m} {pc} i v lt e. (
      begin node v.0 i by_lock Mcs.clear_next
          (mcs.inv_lock i (v.0.below (node i)) lt (at_rest node pc i e)),
      quietly v.0 v.1 i _ refl refl,
    );
    inv_trylock = λ {n} {m} {pc} i v lt e. (
      begin node v.0 i by_trylock Mcs.try_next
          (mcs.inv_trylock i (v.0.below (node i)) lt (at_rest node pc i e)),
      quietly v.0 v.1 i _ refl refl,
    );
    inv_poll = λ {n} {m} {pc} i q v lt e. (Inv-poll v.0 i q e, Kept-poll v.0 v.1 i q e);
    inv_unlock = λ {n} {m} {pc} i v lt e. (Inv-unlock v.0 i e, quietly v.0 v.1 i _ refl refl);
    inv_leave = λ {n} {m} {pc} i r v lt e. (Inv-leave v.0 i r e, Kept-leave v.0 v.1 i r e);
    exclusive = λ {n} {m} {pc} i j v lti ltj hi hj. v.0.top.one i j (rw hi refl) (rw hj refl);
  }
