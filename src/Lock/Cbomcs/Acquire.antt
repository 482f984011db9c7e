-- ===== src/Lock/Cbomcs/Acquire.antt =====
-- Each step of an acquire of the cohort lock cbomcs.c keeps its places.
use dal.Prelude.{
  ℕ, zero, suc, ◌+◌, ◌≡◌, ◌≢◌, refl, Bool, true, false, Option, none, some, update, update_same,
  ◌==◌, if◌then◌else◌, Bool-cases, inl, inr, arith, ==_iff, ==_refl, sym, subst, ◌∙◌,
}
use dal.Lock.Raw.{
  Raw, Outcome, pending, acquired, busy, idle, polling, held, leaving, settle, settle_leave,
}
use dal.Lock.Word.{unlocked}
use dal.Lock.Cohort.{side, Mode}
use dal.Lock.Mcs
use dal.Lock.Mcs.{Nodes, is_node}
use dal.Lock.Mcs.Queue
use dal.Lock.Mcs.Steps as McsSteps
use dal.Lock.Mcs.Steps.{mcs}
use dal.Lock.Ttas
use dal.Lock.Backoff
use dal.Lock.Backoff.{default_backoff_delay}
use dal.Lock.Cbomcs.{
  Cohort, Poll, at_local, look, clear, at_top, set_home, give_up, Leave, poll, after_local,
  after_top, after_give_up, top_entry,
}
use dal.Lock.Cbomcs.Places.{local_place, clears, Inv}
use dal.Lock.Cbomcs.Moves.{quiet, take, write_word, come_home, clear_flag, locally}

module _ {node : ℕ → ℕ} {m : Cohort} {pc : ℕ → Raw Poll Leave} (v : Inv node m pc) (i : ℕ) where
  open v use {below, top}

  abbrev mine : ℕ → Raw Mcs.Poll Mcs.Leave
  mine = side local_place node (node i) pc

  pub here : (p : Raw Poll Leave) → pc i ≡ p → mine i ≡ local_place p
  here p e = rw (==_refl (node i), e) refl

  -- The locks of the nodes after a step that changes none of them.
  same_locks :
      (p' : Raw Poll Leave)
      → Queue.Inv (m.local_locks (node i)) (update mine i (local_place p'))
      → (j : ℕ) → Queue.Inv (m.local_locks j) (side local_place node j (update pc i p'))
  same_locks p' loc =
      subst (λ f. (j : ℕ) → Queue.Inv (f j) (side local_place node j (update pc i p')))
        (update_same m.local_locks (node i) (m.local_locks (node i)) refl)
        (locally v i (node i) (m.local_locks (node i)) p' refl loc)

  pub stays :
      (p' : Raw Poll Leave)
      → local_place p' ≡ local_place (pc i)
      → (j : ℕ) → Queue.Inv (m.local_locks j) (side local_place node j (update pc i p'))
  stays p' same = same_locks p' (
      subst (Queue.Inv (m.local_locks (node i)))
        (sym (update_same mine i (local_place p') (here (pc i) refl ∙ sym same))) (below (node i)))

  -- The thread starts to leave the lock of its node.
  pub departs :
      (p' : Raw Poll Leave)
      → local_place (pc i) ≡ held
      → local_place p' ≡ leaving Mcs.read_next
      → (j : ℕ) → Queue.Inv (m.local_locks j) (side local_place node j (update pc i p'))
  departs p' on e = same_locks p' (
      subst (λ p. Queue.Inv (m.local_locks (node i)) (update mine i p)) (sym e)
        (McsSteps.Inv-unlock (below (node i)) i (here (pc i) refl ∙ on)))

  local_round :
      (mode : Mode) (q : Mcs.Poll) (c : Nodes) (o : Outcome Mcs.Poll)
      → Queue.Inv c (update mine i (settle o))
      → Inv node
          (record m { local_locks = update m.local_locks (node i) c })
          (update pc i (settle (after_local mode o)))
  local_round mode q c (pending q') loc = record {
    below = locally v i (node i) c (polling (at_local mode q')) refl loc;
    top = quiet top i (polling (at_local mode q')) (λ h. cc) (λ h. cc) (λ h. cc) tt;
  }
  local_round mode q c acquired loc = record {
    below = locally v i (node i) c (polling (look mode)) refl loc;
    top = quiet top i (polling (look mode)) (λ h. cc) (λ h. cc) (λ h. cc) tt;
  }
  local_round mode q c busy loc = record {
    below = locally v i (node i) c idle refl loc;
    top = quiet top i idle (λ h. cc) (λ h. cc) (λ h. cc) tt;
  }

  looked :
      (mode : Mode) (f : Bool)
      → pc i ≡ polling (look mode)
      → m.top_grant (node i) ≡ f
      → Inv node m (update pc i (polling (if f then clear else at_top (top_entry mode))))
  looked mode true e f = record {
    below = stays (polling clear) (rw e refl);
    top = quiet top i (polling clear) (λ h. cc) (λ h. cc) (λ h. f) tt;
  }
  looked mode false e f = record {
    below = stays (polling (at_top (top_entry mode))) (rw e refl);
    top = quiet top i (polling (at_top (top_entry mode))) (λ h. cc) (λ h. cc) (λ h. cc) tt;
  }

  -- Threads about to clear the flag of a node hold the lock of that node.
  sole : pc i ≡ polling clear → (j : ℕ) → i ≢ j → node j ≡ node i → clears (pc j) ≡ false
  sole e j differ at = elim (Bool-cases (clears (pc j))) [
    | inl h ↦ absurd (
        differ (
          mcs.exclusive {n = suc (i + j)} i j (below (node i)) (omega arith) (omega arith)
            (here _ e) (rw (at, ==_refl (node i)) (holds (pc j) h))))
    | inr h ↦ h
  ]
    where
      holds : (p : Raw Poll Leave) → clears p ≡ true → local_place p ≡ held
      holds (polling clear) h = refl
      holds p h = absurd (ground arith)

  cleared :
      pc i ≡ polling clear
      → Inv node (record m { top_grant = update m.top_grant (node i) false }) (update pc i held)
  cleared e = record { below = stays held (rw e refl); top = clear_flag top i e (sole e) }

  -- The upper lock stays out of reach for this round.
  waits_on :
      (q q' : Backoff.Poll) (word : ℕ)
      → pc i ≡ polling (at_top q)
      → (m.top_word ≢ unlocked → word ≢ unlocked)
      → Inv node (record m { top_word = word }) (update pc i (polling (at_top q')))
  waits_on q q' word e keeps = record {
    below = stays (polling (at_top q')) (rw e refl);
    top = write_word top i word (polling (at_top q')) keeps refl refl refl tt;
  }

  takes :
      (q : Backoff.Poll)
      → pc i ≡ polling (at_top q)
      → (m.top_word == unlocked) ≡ true
      → Inv node (record m { top_word = Ttas.tas_value }) (update pc i (polling set_home))
  takes q e free = record {
    below = stays (polling set_home) (rw e refl);
    top = take top i Ttas.tas_value ((==_iff m.top_word unlocked).0 free) (omega arith);
  }

  -- A trylock that finds the upper lock taken.
  gives_up :
      (q : Backoff.Poll)
      → pc i ≡ polling (at_top q)
      → Inv node
          (record m { top_word = Ttas.tas_value })
          (update pc i (polling (give_up Mcs.read_next)))
  gives_up q e = record {
    below = departs (polling (give_up Mcs.read_next)) (rw e refl) refl;
    top =
        write_word top i Ttas.tas_value (polling (give_up Mcs.read_next)) (λ h. omega arith) refl
          refl refl tt;
  }

  top_round :
      (q : Backoff.Poll)
      → pc i ≡ polling (at_top q)
      → Inv node
          (record m { top_word = (Backoff.poll i m.top_word q).0 })
          (update pc i (settle (after_top (Backoff.poll i m.top_word q).1)))
  unfolding Backoff.poll
  top_round (Backoff.watch d) e =
      waits_on _ (if m.top_word == unlocked then Backoff.tas d else Backoff.pause d d) m.top_word e
        (λ h. h)
  top_round (Backoff.pause d zero) e = waits_on _ _ m.top_word e (λ h. h)
  top_round (Backoff.pause d (suc left)) e = waits_on _ _ m.top_word e (λ h. h)
  top_round (Backoff.tas d) e = elim (Bool-cases (m.top_word == unlocked)) [
    | inl f ↦ rw f (takes _ e f)
    | inr f ↦ rw f (waits_on _ (Backoff.watch d) Ttas.tas_value e (λ h. omega arith))
  ]
  top_round Backoff.tas_once e = elim (Bool-cases (m.top_word == unlocked)) [
    | inl f ↦ rw f (takes _ e f)
    | inr f ↦ rw f (gives_up _ e)
  ]

  homed :
      pc i ≡ polling set_home → Inv node (record m { top_home = some (node i) }) (update pc i held)
  homed e = record { below = stays held (rw e refl); top = come_home top i e }

  gave_up :
      (c : Nodes) (o : Option Mcs.Leave)
      → Queue.Inv c (update mine i (settle_leave o))
      → Inv node
          (record m { local_locks = update m.local_locks (node i) c })
          (update pc i (settle (after_give_up o)))
  gave_up c (some r') loc = record {
    below = locally v i (node i) c (polling (give_up r')) refl loc;
    top = quiet top i (polling (give_up r')) (λ h. cc) (λ h. cc) (λ h. cc) tt;
  }
  gave_up c none loc = record {
    below = locally v i (node i) c idle refl loc;
    top = quiet top i idle (λ h. cc) (λ h. cc) (λ h. cc) tt;
  }

  pub Inv-poll :
      (q : Poll)
      → pc i ≡ polling q
      → Inv node (poll node i m q).0 (update pc i (settle (poll node i m q).1))
  unfolding poll
  Inv-poll (at_local mode q) e =
      local_round mode q _ _ (McsSteps.Inv-poll (below (node i)) i q (here _ e))
  Inv-poll (look mode) e = looked mode (m.top_grant (node i)) e refl
  Inv-poll clear e = cleared e
  Inv-poll (at_top q) e = top_round q e
  Inv-poll set_home e = homed e
  Inv-poll (give_up r) e = gave_up _ _ (McsSteps.Inv-leave (below (node i)) i r (here _ e))
