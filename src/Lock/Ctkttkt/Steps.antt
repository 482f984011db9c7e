-- ===== src/Lock/Ctkttkt/Steps.antt =====
-- The cohort lock as an implementation of the interface.
use dal.Prelude.{
  ℕ, ◌^◌, ◌<◌, ◌≡◌, ◌⊎◌, refl, false, update, update_same, inl, inr, arith, sym, ==_refl, subst,
  some,
}
use dal.Lock.Raw.{RawLock, Raw, idle, polling, held, leaving}
use dal.Lock.Cohort.{side-idle}
use dal.Lock.Ticket
use dal.Lock.Ticket.Tickets
use dal.Lock.Ctkttkt.{Cohort, Poll, at_local, Leave, read_home, poll, leave, zeroed}
use dal.Lock.Ctkttkt.Places.{local_place, side, Inv}
use dal.Lock.Ctkttkt.Moves.{sole, around}
use dal.Lock.Ctkttkt.Acquire.{Inv-poll}
use dal.Lock.Ctkttkt.Release.{Inv-leave, Inv-unlock}

module _ (nodes : ℕ) (node : ℕ → ℕ) where
  pub begin :
      {n : ℕ} {m : Cohort} {pc : ℕ → Raw Poll Leave} (v : Inv nodes node n m pc) (i : ℕ)
      (q : Ticket.Poll)
      → pc i ≡ idle
      → Tickets.Inv n (m.local_locks (node i)) (update (side nodes node (node i) pc) i (polling q))
      → Inv nodes node n m (update pc i (polling (at_local q)))
  begin {n} {m} {pc} v i q e loc =
      subst
        (λ l. Inv nodes node n (record m { local_locks = l }) (update pc i (polling (at_local q))))
        (update_same m.local_locks (node i) (m.local_locks (node i)) refl)
        (around v i (m.local_locks (node i)) (polling (at_local q)) (rw e refl) refl loc)

  pub start : {n : ℕ} → nodes < 2 ^ 32 → n < 2 ^ 32 → Inv nodes node n zeroed (λ _. idle)
  start {n} few fits = record {
    tops = λ _. idle;
    below = λ k.
        subst (Tickets.Inv n (record { request = 0; grant = 0 }))
          (sym (side-idle local_place node {p = idle} k refl)) (Tickets.Inv-create fits);
    above = Tickets.Inv-create few;
    granted = λ k h. cc;
    rest = λ k h f. refl;
    knows = λ i. tt;
    homes = λ i h. cc;
  }

  pub at_rest :
      (pc : ℕ → Raw Poll Leave) (i : ℕ) → pc i ≡ idle → side nodes node (node i) pc i ≡ idle
  at_rest pc i e = rw (==_refl (node i), e) refl

  -- Two holders have the upper lock for their nodes, so the nodes are one.
  pub one_holder :
      {n : ℕ} {m : Cohort} {pc : ℕ → Raw Poll Leave} (v : Inv nodes node n m pc) (i j : ℕ)
      → pc i ≡ held
      → pc j ≡ held
      → i ≡ j
  one_holder {n} {m} {pc} v i j hi hj =
      sole v i j (rw hi refl) (rw hj refl) (
        v.above.unique (node j) (node i) m.top_lock.grant (rw (top j hj) refl) (rw (top i hi) refl))
    where
      top : (i : ℕ) → pc i ≡ held → v.tops (node i) ≡ held
      top i h = ground (arith, v.knows i)

  pub home_of_holder :
      {n : ℕ} {m : Cohort} {pc : ℕ → Raw Poll Leave} (v : Inv nodes node n m pc) (i : ℕ)
      → (pc i ≡ held) ⊎ (pc i ≡ leaving read_home)
      → (m.top_home ≡ some (node i)) × ((k : ℕ) → m.top_grant k ≡ false)
  home_of_holder {n} {m} {pc} v i (inl h) = (v.homes i (rw h refl), λ k. unset k)
    where
      unset : (k : ℕ) → m.top_grant k ≡ false
      unset k = ground (arith, v.granted k, v.homes i, v.knows i)
  home_of_holder {n} {m} {pc} v i (inr h) = (v.homes i (rw h refl), λ k. unset k)
    where
      unset : (k : ℕ) → m.top_grant k ≡ false
      unset k = ground (arith, v.granted k, v.homes i, v.knows i)

module _ (nodes : ℕ) (node : ℕ → ℕ) (some_node : (i : ℕ) → node i < nodes)
    (few : nodes < 2 ^ 32) where
  abbrev pub ctkttkt : RawLock
  ctkttkt = record {
    Mem = Cohort;
    Poll = Poll;
    Leave = Leave;
    create = zeroed;
    lock_entry = at_local Ticket.draw;
    trylock_entry = at_local Ticket.read_request;
    unlock_entry = read_home;
    poll = poll node;
    leave = leave node;
    Fits = λ n. n < 2 ^ 32;
    Inv = Inv nodes node;
    inv_create = λ {n} fits. start nodes node few fits;
    inv_lock = λ {n} {m} {pc} i v lt e.
        begin nodes node v i Ticket.draw e
          (Tickets.ticket_lock.inv_lock i (v.below (node i)) lt (at_rest nodes node pc i e));
    inv_trylock = λ {n} {m} {pc} i v lt e.
        begin nodes node v i Ticket.read_request e
          (Tickets.ticket_lock.inv_trylock i (v.below (node i)) lt (at_rest nodes node pc i e));
    inv_poll = λ {n} {m} {pc} i q v lt e. Inv-poll some_node v i lt q e;
    inv_unlock = λ {n} {m} {pc} i v lt e. Inv-unlock some_node v i lt e;
    inv_leave = λ {n} {m} {pc} i r v lt e. Inv-leave some_node v i lt r e;
    exclusive = λ {n} {m} {pc} i j v lti ltj hi hj. one_holder nodes node v i j hi hj;
  }
