-- ===== src/Lock/Ctkttkt/Parts.antt =====
-- The kinds of step of a thread of the cohort lock: inside its node, in the upper lock, at the door.
use dal.Prelude.{
  ℕ, ◌<◌, ◌≡◌, ◌≢◌, refl, true, false, some, update, update_same, ◌==◌, Bool-cases, inl, inr, arith,
  ==_iff, sym, ==_refl, subst, ◌∙◌, ℤ,
}
use dal.Lock.Raw.{Raw, idle, polling, held}
use dal.Lock.Cohort.{Mode}
use dal.Lock.Ticket
use dal.Lock.Ticket.{Counters}
use dal.Lock.Ticket.Tickets
use dal.Lock.Ctkttkt.{Cohort, Poll, at_local, look, Leave}
use dal.Lock.Ctkttkt.Places.{local_place, inside, at_home, Knows, side, Inv}
use dal.Lock.Ctkttkt.Moves.{sole, within, ticket-inside}

module _ {nodes : ℕ} {node : ℕ → ℕ} {n : ℕ} {m : Cohort} {pc : ℕ → Raw Poll Leave}
    (v : Inv nodes node n m pc) (i : ℕ) (lt : i < n) where
  open v use {tops, below, above, granted, rest, knows, homes}

  abbrev mine : ℕ → Raw Ticket.Poll Ticket.Leave
  mine = side nodes node (node i) pc

  pub here : (p : Raw Poll Leave) → pc i ≡ p → mine i ≡ local_place p
  here p e = rw (==_refl (node i), e) refl

  pub known :
      (p : Raw Poll Leave) → pc i ≡ p → Knows (node i) (m.top_grant (node i)) (tops (node i)) p
  known p e = subst (Knows (node i) (m.top_grant (node i)) (tops (node i))) e (knows i)

  pub alone : inside (pc i) ≡ true → (j : ℕ) → i ≢ j → node j ≡ node i → inside (pc j) ≡ false
  alone on j differ at = elim (Bool-cases (inside (pc j))) [
    | inl h ↦ absurd (differ (sole v i j on h at))
    | inr h ↦ h
  ]

  pub unflagged : m.top_grant (node i) ≡ false → m.top_grant ≡ update m.top_grant (node i) false
  unflagged f = sym (update_same m.top_grant (node i) false f)

  -- A step inside that leaves both locks alone.
  pub quiet :
      (b : ℕ → ℤ) (p' : Raw Poll Leave)
      → inside (pc i) ≡ true
      → inside p' ≡ true
      → local_place p' ≡ local_place (pc i)
      → m.top_grant (node i) ≡ false
      → Knows (node i) false (tops (node i)) p'
      → (at_home p' ≡ true → m.top_home ≡ some (node i))
      → Inv nodes node n (record m { batch = b }) (update pc i p')
  quiet b p' on on' same f own home =
      within v i (record m { batch = b }) p' (tops (node i)) false (alone on)
        (subst (Tickets.Inv n (m.local_locks (node i)))
          (sym (update_same mine i (local_place p') (here (pc i) refl ∙ sym same)))
          (below (node i)))
        (λ k h. refl)
        (subst (Tickets.Inv nodes m.top_lock) (sym (update_same tops (node i) (tops (node i)) refl))
          above)
        (unflagged f) own (λ h. cc) (λ h. cc) home (inl refl)

  -- A step in the upper lock.
  pub upward :
      (b : ℕ → ℤ) (top : Counters) (p' : Raw Poll Leave) (r' : Raw Ticket.Poll Ticket.Leave)
      → inside (pc i) ≡ true
      → inside p' ≡ true
      → local_place p' ≡ local_place (pc i)
      → m.top_grant (node i) ≡ false
      → Tickets.Inv nodes top (update tops (node i) r')
      → Knows (node i) false r' p'
      → at_home p' ≡ false
      → Inv nodes node n (record m { top_lock = top; batch = b }) (update pc i p')
  upward b top p' r' on on' same f up own away =
      within v i (record m { top_lock = top; batch = b }) p' r' false (alone on)
        (subst (Tickets.Inv n (m.local_locks (node i)))
          (sym (update_same mine i (local_place p') (here (pc i) refl ∙ sym same)))
          (below (node i)))
        (λ k h. refl) up (unflagged f) own (λ h. cc) (λ h. cc) (λ h. cc) (inl refl)

  -- A step inside that moves in the lock of the node, while the upper lock is left alone.
  pub inward :
      (k : ℕ) (c : Counters) (p' : Raw Poll Leave)
      → k ≡ node i
      → inside (pc i) ≡ true
      → Tickets.Inv n c (update mine i (local_place p'))
      → Knows (node i) (m.top_grant (node i)) (tops (node i)) p'
      → (m.top_grant (node i) ≡ false → tops (node i) ≡ idle)
      → at_home p' ≡ false
      → Inv nodes node n (record m { local_locks = update m.local_locks k c }) (update pc i p')
  inward k c p' at on loc own down away =
      within v i (record m { local_locks = update m.local_locks k c }) p' (tops (node i))
        (m.top_grant (node i)) (alone on)
        (subst
          (λ k. Tickets.Inv n (update m.local_locks k c (node i)) (update mine i (local_place p')))
          (sym at) (rw (==_refl (node i)) loc))
        (λ k' h. ground (arith, h, at))
        (subst (Tickets.Inv nodes m.top_lock) (sym (update_same tops (node i) (tops (node i)) refl))
          above)
        (sym (update_same m.top_grant (node i) (m.top_grant (node i)) refl)) own
        (λ h. granted (node i) h) (λ h f. down f) (λ h. cc) (inl refl)

  -- The lock of the node is taken: nobody else is inside.
  pub enter :
      (c : Counters) (mode : Mode) (q : Ticket.Poll)
      → pc i ≡ polling (at_local q)
      → Tickets.Inv n c (update mine i held)
      → Inv nodes node n
          (record m { local_locks = update m.local_locks (node i) c })
          (update pc i (polling (look mode)))
  enter c mode q e loc =
      within v i (record m { local_locks = update m.local_locks (node i) c }) (polling (look mode))
        (tops (node i)) (m.top_grant (node i)) empty (rw (==_refl (node i)) loc) (λ k h. rw h refl)
        (subst (Tickets.Inv nodes m.top_lock) (sym (update_same tops (node i) (tops (node i)) refl))
          above)
        (sym (update_same m.top_grant (node i) (m.top_grant (node i)) refl))
        (λ f. rest (node i) (λ j at. vacant j at) f) (λ h. granted (node i) h) (λ h f. cc) (λ h. cc)
        (inl refl)
    where
      turn :
          (j : ℕ)
          → (i == j) ≡ false
          → node j ≡ node i
          → inside (pc j) ≡ true
          → Tickets.ticket c (update mine i held j) ≡ some c.grant
      turn j differ at on = rw (differ, at, ==_refl (node i)) (ticket-inside c (pc j) on)

      empty : (j : ℕ) → i ≢ j → node j ≡ node i → inside (pc j) ≡ false
      empty j differ at = elim (Bool-cases (inside (pc j))) [
        | inl h ↦
            absurd
              (differ (loc.unique i j c.grant (rw (==_refl i) refl) (turn j (ground arith) at h)))
        | inr h ↦ h
      ]

      vacant : (j : ℕ) → node j ≡ node i → inside (pc j) ≡ false
      vacant j at = elim (Bool-cases (i == j)) [
        | inl h ↦ rw (sym ((==_iff i j).0 h), e) refl
        | inr h ↦ empty j (ground arith) at
      ]
