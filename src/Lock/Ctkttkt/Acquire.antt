-- ===== src/Lock/Ctkttkt/Acquire.antt =====
-- Each step of an acquire of the cohort lock keeps its places.
use dal.Prelude.{
  ℕ, ◌<◌, ◌≡◌, refl, Bool, true, false, Option, none, some, update, update_same, if◌then◌else◌, inl,
  inr, sym, subst,
}
use dal.Lock.Raw.{Raw, Outcome, pending, acquired, busy, idle, polling, held, settle, settle_leave}
use dal.Lock.Cohort.{Mode, by_lock, by_trylock}
use dal.Lock.Ticket
use dal.Lock.Ticket.{Counters}
use dal.Lock.Ticket.Tickets
use dal.Lock.Ctkttkt.{
  Cohort, Poll, at_local, look, clear, at_top, set_home, give_up, Leave, poll, mode_of, top_entry,
  after_local, after_top, after_give_up,
}
use dal.Lock.Ctkttkt.Places.{side, Inv}
use dal.Lock.Ctkttkt.Moves.{within, around}
use dal.Lock.Ctkttkt.Parts.{here, known, alone, unflagged, upward, inward, enter}

module _ {nodes : ℕ} {node : ℕ → ℕ} (some_node : (i : ℕ) → node i < nodes) {n : ℕ} {m : Cohort}
    {pc : ℕ → Raw Poll Leave} (v : Inv nodes node n m pc) (i : ℕ) (lt : i < n) where
  open v use {tops, below, above, granted, rest, knows, homes}

  abbrev mine : ℕ → Raw Ticket.Poll Ticket.Leave
  mine = side nodes node (node i) pc

  local_round :
      (q : Ticket.Poll) (c : Counters) (o : Outcome Ticket.Poll)
      → pc i ≡ polling (at_local q)
      → Tickets.Inv n c (update mine i (settle o))
      → Inv nodes node n
          (record m { local_locks = update m.local_locks (node i) c })
          (update pc i (settle (after_local (mode_of q) o)))
  local_round q c (pending q') e loc = around v i c (polling (at_local q')) (rw e refl) refl loc
  local_round q c acquired e loc = enter v i lt c (mode_of q) q e loc
  local_round q c busy e loc = around v i c idle (rw e refl) refl loc

  enter_top :
      (mode : Mode)
      → pc i ≡ polling (look mode)
      → m.top_grant (node i) ≡ false
      → Inv nodes node n m (update pc i (polling (at_top (top_entry mode))))
  enter_top by_lock e f =
      upward v i lt m.batch m.top_lock (polling (at_top (top_entry by_lock))) (polling Ticket.draw)
        (rw e refl) refl (rw e refl) f
        (Tickets.ticket_lock.inv_lock (node i) above (some_node i) (known v i lt _ e f))
        (refl, refl) refl
  enter_top by_trylock e f =
      upward v i lt m.batch m.top_lock (polling (at_top (top_entry by_trylock)))
        (polling Ticket.read_request) (rw e refl) refl (rw e refl) f
        (Tickets.ticket_lock.inv_trylock (node i) above (some_node i) (known v i lt _ e f))
        (refl, refl) refl

  looked :
      (mode : Mode) (f : Bool)
      → pc i ≡ polling (look mode)
      → m.top_grant (node i) ≡ f
      → Inv nodes node n m (update pc i (polling (if f then clear else at_top (top_entry mode))))
  looked mode true e f =
      within v i m (polling clear) held true (alone v i lt (rw e refl))
        (subst (Tickets.Inv n (m.local_locks (node i)))
          (sym (update_same mine i held (here v i lt _ e))) (below (node i)))
        (λ k h. refl)
        (subst (Tickets.Inv nodes m.top_lock)
          (sym (update_same tops (node i) held (granted (node i) f).0)) above)
        (sym (update_same m.top_grant (node i) true f)) refl (λ h. (refl, (granted (node i) f).1))
        (λ h. cc) (λ h. cc) (inl refl)
  looked mode false e f = enter_top mode e f

  cleared :
      pc i ≡ polling clear
      → Inv nodes node n
          (record m { top_grant = update m.top_grant (node i) false })
          (update pc i held)
  cleared e =
      let given = granted (node i) (known v i lt _ e) in
      within v i (record m { top_grant = update m.top_grant (node i) false }) held held false
        (alone v i lt (rw e refl))
        (subst (Tickets.Inv n (m.local_locks (node i)))
          (sym (update_same mine i held (here v i lt _ e))) (below (node i)))
        (λ k h. refl)
        (subst (Tickets.Inv nodes m.top_lock) (sym (update_same tops (node i) held given.0)) above)
        refl (refl, refl) (λ h. cc) (λ h. cc) (λ h. given.1) (inl refl)

  top_round :
      (q : Ticket.Poll) (top : Counters) (o : Outcome Ticket.Poll)
      → pc i ≡ polling (at_top q)
      → Tickets.Inv nodes top (update tops (node i) (settle o))
      → Inv nodes node n (record m { top_lock = top }) (update pc i (settle (after_top o)))
  top_round q top (pending q') e up =
      upward v i lt m.batch top (polling (at_top q')) (polling q') (rw e refl) refl (rw e refl)
        (known v i lt _ e).0 up (refl, refl) refl
  top_round q top acquired e up =
      upward v i lt m.batch top (polling set_home) held (rw e refl) refl (rw e refl)
        (known v i lt _ e).0 up (refl, refl) refl
  top_round q top busy e up =
      within v i (record m { top_lock = top }) (polling (give_up Ticket.read_grant)) idle false
        (alone v i lt (rw e refl)) (Tickets.Inv-unlock (below (node i)) i lt (here v i lt _ e))
        (λ k h. refl) up (unflagged v i lt (known v i lt _ e).0) (refl, refl) (λ h. cc)
        (λ h f. refl) (λ h. cc) (inl refl)

  homed :
      pc i ≡ polling set_home
      → Inv nodes node n (record m { top_home = some (node i) }) (update pc i held)
  homed e =
      within v i (record m { top_home = some (node i) }) held held false (alone v i lt (rw e refl))
        (subst (Tickets.Inv n (m.local_locks (node i)))
          (sym (update_same mine i held (here v i lt _ e))) (below (node i)))
        (λ k h. refl)
        (subst (Tickets.Inv nodes m.top_lock)
          (sym (update_same tops (node i) held (known v i lt _ e).1)) above)
        (unflagged v i lt (known v i lt _ e).0) (refl, refl) (λ h. cc) (λ h. cc) (λ h. refl)
        (inr (known v i lt _ e).1)

  gave_up :
      (r : Ticket.Leave) (c : Counters) (o : Option Ticket.Leave)
      → pc i ≡ polling (give_up r)
      → Tickets.Inv n c (update mine i (settle_leave o))
      → Inv nodes node n
          (record m { local_locks = update m.local_locks (node i) c })
          (update pc i (settle (after_give_up o)))
  gave_up r c (some r') e loc =
      inward v i lt (node i) c (polling (give_up r')) refl (rw e refl) loc (known v i lt _ e)
        (λ f. (known v i lt _ e).1) refl
  gave_up r c none e loc =
      inward v i lt (node i) c idle refl (rw e refl) loc tt (λ f. (known v i lt _ e).1) refl

  pub Inv-poll :
      (q : Poll)
      → pc i ≡ polling q
      → Inv nodes node n (poll node i m q).0 (update pc i (settle (poll node i m q).1))
  unfolding poll
  Inv-poll (at_local q) e =
      local_round q _ _ e (Tickets.Inv-poll (below (node i)) i lt q (here v i lt _ e))
  Inv-poll (look mode) e = looked mode (m.top_grant (node i)) e refl
  Inv-poll clear e = cleared e
  Inv-poll (at_top q) e =
      top_round q _ _ e (Tickets.Inv-poll above (node i) (some_node i) q (known v i lt _ e).1)
  Inv-poll set_home e = homed e
  Inv-poll (give_up r) e =
      gave_up r _ _ e (Tickets.Inv-leave (below (node i)) i lt r (here v i lt _ e))
