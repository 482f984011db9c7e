-- ===== src/Lock/Ctkttkt/Release.antt =====
-- Each step of a release of the cohort lock keeps its places.
use dal.Prelude.{
  ℕ, ◌+◌, ◌<◌, ◌≡◌, refl, true, false, Option, none, some, update, update_same, ◌==◌, Bool-cases,
  inl, inr, arith, sym, subst, ℤ,
}
use dal.Lock.Raw.{Raw, idle, held, leaving, settle_leave}
use dal.Lock.Cohort.{is_natural, decrement}
use dal.Lock.Ticket
use dal.Lock.Ticket.{Counters}
use dal.Lock.Ticket.Tickets
use dal.Lock.Ctkttkt.{
  Cohort, Poll, Leave, read_home, read_grant, test_request, count, set_grant, reset, release_top,
  store_grant, leave, from_home, after_top_release,
}
use dal.Lock.Ctkttkt.Places.{local_place, inside, side, Inv}
use dal.Lock.Ctkttkt.Moves.{within}
use dal.Lock.Ctkttkt.Parts.{here, known, alone, unflagged, quiet, upward, inward}

module _ {nodes : ℕ} {node : ℕ → ℕ} (some_node : (i : ℕ) → node i < nodes) {n : ℕ} {m : Cohort}
    {pc : ℕ → Raw Poll Leave} (v : Inv nodes node n m pc) (i : ℕ) (lt : i < n) where
  open v use {tops, below, above, granted, rest, knows, homes}

  abbrev mine : ℕ → Raw Ticket.Poll Ticket.Leave
  mine = side nodes node (node i) pc

  abbrev After : Leave → Type 0
  After r = Inv nodes node n (leave node i m r).0 (update pc i (settle_leave (leave node i m r).1))

  went_home :
      (o : Option ℕ)
      → pc i ≡ leaving read_home
      → m.top_home ≡ o
      → Inv nodes node n m (update pc i (leaving (from_home o)))
  went_home none e h = absurd (cc (homes i (rw e refl), h))
  went_home (some k) e h =
      let at : k ≡ node i = ground (arith, homes i, h) in
      quiet v i lt m.batch (leaving (read_grant k)) (rw e refl) refl (rw e refl)
        (known v i lt _ e).0 (refl, (known v i lt _ e).1, at) (λ a. homes i (rw e refl))

  read_it : pc i ≡ leaving (read_grant (node i)) → After (read_grant (node i))
  unfolding leave Ticket.leave
  read_it e =
      within v i m (leaving (test_request (node i) (m.local_locks (node i)).grant)) (tops (node i))
        false (alone v i lt (rw e refl))
        (Tickets.Inv-leave (below (node i)) i lt Ticket.read_grant (here v i lt _ e)) (λ k h. refl)
        (subst (Tickets.Inv nodes m.top_lock) (sym (update_same tops (node i) (tops (node i)) refl))
          above)
        (unflagged v i lt (known v i lt _ e).0) (refl, (known v i lt _ e).1, refl) (λ h. cc)
        (λ h. cc) (λ h. homes i (rw e refl)) (inl refl)

  -- The upper lock is given back.
  start_release :
      (b : ℕ → ℤ) (g : ℕ)
      → inside (pc i) ≡ true
      → local_place (pc i) ≡ leaving (Ticket.write_grant g)
      → (m.top_grant (node i) ≡ false) × (tops (node i) ≡ held)
      → Inv nodes node n
          (record m { batch = b })
          (update pc i (leaving (release_top (node i) g Ticket.read_grant)))
  start_release b g on same own =
      upward v i lt b m.top_lock (leaving (release_top (node i) g Ticket.read_grant))
        (leaving Ticket.read_grant) on refl (sym same) own.0
        (Tickets.Inv-unlock above (node i) (some_node i) own.1) (refl, refl, refl) refl

  test_it : (g : ℕ) → pc i ≡ leaving (test_request (node i) g) → After (test_request (node i) g)
  unfolding leave
  test_it g e = elim (Bool-cases ((m.local_locks (node i)).request == Ticket.u32 (g + 1))) [
    | inl t ↦ rw t (
        start_release m.batch g (rw e refl) (rw e refl)
          ((known v i lt _ e).0, (known v i lt _ e).1))
    | inr t ↦ rw t (
        quiet v i lt m.batch (leaving (count (node i) g)) (rw e refl) refl (rw e refl)
          (known v i lt _ e).0 (refl, (known v i lt _ e).1, refl) (λ h. homes i (rw e refl)))
  ]

  count_it : (g : ℕ) → pc i ≡ leaving (count (node i) g) → After (count (node i) g)
  unfolding leave
  count_it g e = elim (Bool-cases (is_natural (decrement (m.batch (node i))))) [
    | inl t ↦ rw t (
        quiet v i lt _ (leaving (set_grant (node i) g)) (rw e refl) refl (rw e refl)
          (known v i lt _ e).0 (refl, (known v i lt _ e).1, refl) (λ h. homes i (rw e refl)))
    | inr t ↦ rw t (
        quiet v i lt _ (leaving (reset (node i) g)) (rw e refl) refl (rw e refl)
          (known v i lt _ e).0 (refl, (known v i lt _ e).1, refl) (λ h. homes i (rw e refl)))
  ]

  grant_it : (g : ℕ) → pc i ≡ leaving (set_grant (node i) g) → After (set_grant (node i) g)
  unfolding leave
  grant_it g e =
      within v i (record m { top_grant = update m.top_grant (node i) true })
        (leaving (store_grant (node i) g)) held true (alone v i lt (rw e refl))
        (subst (Tickets.Inv n (m.local_locks (node i)))
          (sym (update_same mine i (leaving (Ticket.write_grant g)) (here v i lt _ e)))
          (below (node i)))
        (λ k h. refl)
        (subst (Tickets.Inv nodes m.top_lock)
          (sym (update_same tops (node i) held (known v i lt _ e).1)) above)
        refl ((λ h. cc), refl) (λ h. (refl, homes i (rw e refl))) (λ h. cc) (λ h. cc) (inl refl)

  release_round :
      (g : ℕ) (r : Ticket.Leave) (top : Counters) (o : Option Ticket.Leave)
      → pc i ≡ leaving (release_top (node i) g r)
      → Tickets.Inv nodes top (update tops (node i) (settle_leave o))
      → Inv nodes node n
          (record m { top_lock = top })
          (update pc i (leaving (after_top_release (node i) g o)))
  release_round g r top (some r') e up =
      upward v i lt m.batch top (leaving (release_top (node i) g r')) (leaving r') (rw e refl) refl
        (rw e refl) (known v i lt _ e).0 up (refl, refl, refl) refl
  release_round g r top none e up =
      upward v i lt m.batch top (leaving (store_grant (node i) g)) idle (rw e refl) refl (rw e refl)
        (known v i lt _ e).0 up ((λ h. refl), refl) refl

  store_it : (g : ℕ) → pc i ≡ leaving (store_grant (node i) g) → After (store_grant (node i) g)
  unfolding leave Ticket.leave
  store_it g e =
      inward v i lt (node i) _ idle refl (rw e refl)
        (Tickets.Inv-leave (below (node i)) i lt (Ticket.write_grant g) (here v i lt _ e)) tt
        (known v i lt _ e).0 refl

  -- The node that a release works on is the thread's own.
  at_own :
      (leave_of : ℕ → Leave) (k : ℕ)
      → pc i ≡ leaving (leave_of k)
      → k ≡ node i
      → (pc i ≡ leaving (leave_of (node i)) → After (leave_of (node i)))
      → After (leave_of k)
  at_own leave_of k e at go =
      subst (λ k. After (leave_of k)) (sym at) (go (subst (λ k. pc i ≡ leaving (leave_of k)) at e))

  pub Inv-leave :
      (r : Leave)
      → pc i ≡ leaving r
      → Inv nodes node n (leave node i m r).0 (update pc i (settle_leave (leave node i m r).1))
  unfolding leave
  Inv-leave read_home e = went_home m.top_home e refl
  Inv-leave (read_grant k) e = at_own read_grant k e (known v i lt _ e).2 read_it
  Inv-leave (test_request k g) e =
      at_own (λ k. test_request k g) k e (known v i lt _ e).2 (test_it g)
  Inv-leave (count k g) e = at_own (λ k. count k g) k e (known v i lt _ e).2 (count_it g)
  Inv-leave (set_grant k g) e = at_own (λ k. set_grant k g) k e (known v i lt _ e).2 (grant_it g)
  Inv-leave (reset k g) e =
      at_own (λ k. reset k g) k e (known v i lt _ e).2
        (λ e.
          start_release _ g (rw e refl) (rw e refl) ((known v i lt _ e).0, (known v i lt _ e).1))
  Inv-leave (release_top k g r) e =
      at_own (λ k. release_top k g r) k e (known v i lt _ e).2
        (λ e.
          release_round g r _ _ e
            (Tickets.Inv-leave above (node i) (some_node i) r (known v i lt _ e).1))
  Inv-leave (store_grant k g) e =
      at_own (λ k. store_grant k g) k e (known v i lt _ e).1 (store_it g)

  pub Inv-unlock : pc i ≡ held → Inv nodes node n m (update pc i (leaving read_home))
  Inv-unlock e =
      within v i m (leaving read_home) (tops (node i)) false (alone v i lt (rw e refl))
        (Tickets.Inv-unlock (below (node i)) i lt (here v i lt _ e)) (λ k h. refl)
        (subst (Tickets.Inv nodes m.top_lock) (sym (update_same tops (node i) (tops (node i)) refl))
          above)
        (unflagged v i lt (known v i lt _ e).0) (refl, (known v i lt _ e).1) (λ h. cc) (λ h. cc)
        (λ h. homes i (rw e refl)) (inl refl)
