-- ===== src/Lock/Cbomcs/Release.antt =====
-- Each step of a release of the cohort lock cbomcs.c keeps its places.
use dal.Prelude.{
  ℕ, ◌≡◌, refl, true, Option, none, some, update, Bool-cases, inl, inr, arith, sym, subst, ℤ,
}
use dal.Lock.Raw.{Raw, idle, held, leaving, settle_leave}
use dal.Lock.Cohort.{side, decrement, is_natural}
use dal.Lock.Mcs
use dal.Lock.Mcs.{Nodes, is_node}
use dal.Lock.Mcs.Queue
use dal.Lock.Mcs.Steps as McsSteps
use dal.Lock.Mcs.Steps.{mcs}
use dal.Lock.Cbomcs.{
  Cohort, Poll, Leave, read_home, test_tail, count, set_grant, pass_local, reset, drop_local,
  store_top, leave, from_home, after_pass, after_drop,
}
use dal.Lock.Cbomcs.Places.{local_place, owns, at_home, AtOwn, Inv}
use dal.Lock.Cbomcs.Moves.{quiet, set_flag, free_word, locally}
use dal.Lock.Cbomcs.Acquire.{here, stays, departs}

module _ {node : ℕ → ℕ} {m : Cohort} {pc : ℕ → Raw Poll Leave} (v : Inv node m pc) (i : ℕ) where
  open v use {below, top}

  abbrev mine : ℕ → Raw Mcs.Poll Mcs.Leave
  mine = side local_place node (node i) pc

  abbrev After : Leave → Type 0
  After r = Inv node (leave node i m r).0 (update pc i (settle_leave (leave node i m r).1))

  -- A step of the holder that changes no lock.
  holds_on :
      (b : ℕ → ℤ) (r : Leave)
      → owns (pc i) ≡ true
      → at_home (pc i) ≡ true
      → local_place (leaving r) ≡ local_place (pc i)
      → AtOwn (node i) (leaving r)
      → Inv node (record m { batch = b }) (update pc i (leaving r))
  holds_on b r on home same at = record {
    below = stays v i (leaving r) same;
    top = quiet top i (leaving r) (λ h. on) (λ h. top.homes i home) (λ h. cc) at;
  }

  went_home :
      (o : Option ℕ)
      → pc i ≡ leaving read_home
      → m.top_home ≡ o
      → Inv node m (update pc i (leaving (from_home o)))
  went_home none e h = absurd (cc (top.homes i (rw e refl), h))
  went_home (some k) e h =
      holds_on m.batch (test_tail k) (rw e refl) (rw e refl) (rw e refl)
        (ground (arith, top.homes i (rw e refl), h))

  -- The holder decides to give both locks back.
  start_drop :
      (b : ℕ → ℤ)
      → owns (pc i) ≡ true
      → at_home (pc i) ≡ true
      → local_place (pc i) ≡ held
      → Inv node
          (record m { batch = b })
          (update pc i (leaving (drop_local (node i) Mcs.read_next)))
  start_drop b on home at = record {
    below = departs v i (leaving (drop_local (node i) Mcs.read_next)) at refl;
    top =
        quiet top i (leaving (drop_local (node i) Mcs.read_next)) (λ h. on) (λ h. cc) (λ h. cc)
          refl;
  }

  test_it : pc i ≡ leaving (test_tail (node i)) → After (test_tail (node i))
  unfolding leave
  test_it e = elim (Bool-cases (is_node i (m.local_locks (node i)).tail)) [
    | inl t ↦ rw t (start_drop m.batch (rw e refl) (rw e refl) (rw e refl))
    | inr t ↦ rw t (holds_on m.batch (count (node i)) (rw e refl) (rw e refl) (rw e refl) refl)
  ]

  count_it : pc i ≡ leaving (count (node i)) → After (count (node i))
  unfolding leave
  count_it e = elim (Bool-cases (is_natural (decrement (m.batch (node i))))) [
    | inl t ↦ rw t (holds_on _ (set_grant (node i)) (rw e refl) (rw e refl) (rw e refl) refl)
    | inr t ↦ rw t (holds_on _ (reset (node i)) (rw e refl) (rw e refl) (rw e refl) refl)
  ]

  grant_it : pc i ≡ leaving (set_grant (node i)) → After (set_grant (node i))
  unfolding leave
  grant_it e = record {
    below = departs v i (leaving (pass_local (node i) Mcs.read_next)) (rw e refl) refl;
    top = set_flag top i e;
  }

  pass_round :
      (c : Nodes) (o : Option Mcs.Leave)
      → Queue.Inv c (update mine i (settle_leave o))
      → Inv node
          (record m { local_locks = update m.local_locks (node i) c })
          (update pc i (settle_leave (after_pass (node i) o)))
  pass_round c (some r) loc = record {
    below = locally v i (node i) c (leaving (pass_local (node i) r)) refl loc;
    top = quiet top i (leaving (pass_local (node i) r)) (λ h. cc) (λ h. cc) (λ h. cc) refl;
  }
  pass_round c none loc = record {
    below = locally v i (node i) c idle refl loc;
    top = quiet top i idle (λ h. cc) (λ h. cc) (λ h. cc) tt;
  }

  drop_round :
      (c : Nodes) (o : Option Mcs.Leave)
      → owns (pc i) ≡ true
      → Queue.Inv c (update mine i (settle_leave o))
      → Inv node
          (record m { local_locks = update m.local_locks (node i) c })
          (update pc i (leaving (after_drop (node i) o)))
  drop_round c (some r) on loc = record {
    below = locally v i (node i) c (leaving (drop_local (node i) r)) refl loc;
    top = quiet top i (leaving (drop_local (node i) r)) (λ h. on) (λ h. cc) (λ h. cc) refl;
  }
  drop_round c none on loc = record {
    below = locally v i (node i) c (leaving store_top) refl loc;
    top = quiet top i (leaving store_top) (λ h. on) (λ h. cc) (λ h. cc) tt;
  }

  -- The node that a release works on is the thread's own.
  at_own :
      (leave_of : ℕ → Leave) (k : ℕ)
      → pc i ≡ leaving (leave_of k)
      → k ≡ node i
      → (pc i ≡ leaving (leave_of (node i)) → After (leave_of (node i)))
      → After (leave_of k)
  at_own leave_of k e at go =
      subst (λ k. After (leave_of k)) (sym at) (go (subst (λ k. pc i ≡ leaving (leave_of k)) at e))

  own : (p : Raw Poll Leave) → pc i ≡ p → AtOwn (node i) p
  own p e = subst (AtOwn (node i)) e (top.own i)

  pub Inv-leave :
      (r : Leave)
      → pc i ≡ leaving r
      → Inv node (leave node i m r).0 (update pc i (settle_leave (leave node i m r).1))
  unfolding leave
  Inv-leave read_home e = went_home m.top_home e refl
  Inv-leave (test_tail k) e = at_own test_tail k e (own _ e) test_it
  Inv-leave (count k) e = at_own count k e (own _ e) count_it
  Inv-leave (set_grant k) e = at_own set_grant k e (own _ e) grant_it
  Inv-leave (pass_local k r) e =
      at_own (λ k. pass_local k r) k e (own _ e)
        (λ e. pass_round _ _ (McsSteps.Inv-leave (below (node i)) i r (here v i _ e)))
  Inv-leave (reset k) e =
      at_own reset k e (own _ e) (λ e. start_drop _ (rw e refl) (rw e refl) (rw e refl))
  Inv-leave (drop_local k r) e =
      at_own (λ k. drop_local k r) k e (own _ e)
        (λ e. drop_round _ _ (rw e refl) (McsSteps.Inv-leave (below (node i)) i r (here v i _ e)))
  Inv-leave store_top e = record { below = stays v i idle (rw e refl); top = free_word top i e }

  pub Inv-unlock : pc i ≡ held → Inv node m (update pc i (leaving read_home))
  Inv-unlock e = holds_on m.batch read_home (rw e refl) (rw e refl) (rw e refl) tt
