-- ===== src/Lock/Ctkttkt/Moves.antt =====
-- What a step of one thread leaves true of a cohort lock.
use dal.Prelude.{
  ℕ, ◌≡◌, ◌≢◌, ◌⊎◌, refl, Bool, true, false, some, update, ◌==◌, Bool-cases, inl, inr, arith,
  ==_iff, sym, ap, ==_refl, subst,
}
use dal.Lock.Raw.{Raw, idle, polling, held, leaving}
use dal.Lock.Ticket
use dal.Lock.Ticket.{Counters}
use dal.Lock.Ticket.Tickets
use dal.Lock.Ctkttkt.{
  Cohort, Poll, at_local, look, clear, at_top, set_home, give_up, Leave, read_home, read_grant,
  test_request, count, set_grant, reset, release_top, store_grant,
}
use dal.Lock.Cohort.{side-update, side-other}
use dal.Lock.Ctkttkt.Places.{local_place, inside, at_home, Knows, side, Inv}

-- A thread outside knows nothing.
outside_Knows :
    (k : ℕ) (flag : Bool) (top : Raw Ticket.Poll Ticket.Leave) (p : Raw Poll Leave)
    → inside p ≡ false
    → Knows k flag top p
outside_Knows k flag top idle h = tt
outside_Knows k flag top (polling (at_local q)) h = tt
outside_Knows k flag top p h = absurd (ground arith)

at_home-inside : (p : Raw Poll Leave) → inside p ≡ false → at_home p ≡ false
at_home-inside idle h = refl
at_home-inside (polling (at_local q)) h = refl
at_home-inside p h = absurd (ground arith)

at_home-Knows :
    (k : ℕ) (flag : Bool) (top : Raw Ticket.Poll Ticket.Leave) (p : Raw Poll Leave)
    → at_home p ≡ true
    → Knows k flag top p
    → top ≡ held
at_home-Knows k flag top held h w = w.1
at_home-Knows k flag top (leaving read_home) h w = w.1
at_home-Knows k flag top (leaving (read_grant x)) h w = w.1
at_home-Knows k flag top (leaving (test_request x g)) h w = w.1
at_home-Knows k flag top (leaving (count x g)) h w = w.1
at_home-Knows k flag top (leaving (set_grant x g)) h w = w.1
at_home-Knows k flag top (leaving (reset x g)) h w = w.1
at_home-Knows k flag top p h w = absurd (ground arith)

-- Inside means the turn in the lock of the node.
pub ticket-inside :
    (c : Counters) (p : Raw Poll Leave)
    → inside p ≡ true
    → Tickets.ticket c (local_place p) ≡ some c.grant
ticket-inside c idle h = absurd (ground arith)
ticket-inside c (polling (at_local q)) h = absurd (ground arith)
ticket-inside c (polling (look x)) h = refl
ticket-inside c (polling clear) h = refl
ticket-inside c (polling (at_top q)) h = refl
ticket-inside c (polling set_home) h = refl
ticket-inside c (polling (give_up r)) h = refl
ticket-inside c held h = refl
ticket-inside c (leaving read_home) h = refl
ticket-inside c (leaving (read_grant k)) h = refl
ticket-inside c (leaving (test_request k g)) h = refl
ticket-inside c (leaving (count k g)) h = refl
ticket-inside c (leaving (set_grant k g)) h = refl
ticket-inside c (leaving (reset k g)) h = refl
ticket-inside c (leaving (release_top k g r)) h = refl
ticket-inside c (leaving (store_grant k g)) h = refl

module _ {nodes : ℕ} {node : ℕ → ℕ} {n : ℕ} {m : Cohort} {pc : ℕ → Raw Poll Leave}
    (v : Inv nodes node n m pc) where
  open v use {tops, below, above, granted, rest, knows, homes}

  -- The threads inside a node have the turn in its lock.
  pub turn-inside :
      (k j : ℕ)
      → node j ≡ k
      → inside (pc j) ≡ true
      → Tickets.ticket (m.local_locks k) (side nodes node k pc j) ≡ some (m.local_locks k).grant
  turn-inside k j at h = rw (at, ==_refl k) (ticket-inside (m.local_locks k) (pc j) h)

  -- Two threads inside a node are one.
  pub sole : (i j : ℕ) → inside (pc i) ≡ true → inside (pc j) ≡ true → node j ≡ node i → i ≡ j
  sole i j hi hj same =
      (below (node i)).unique i j (m.local_locks (node i)).grant (turn-inside (node i) i refl hi)
        (turn-inside (node i) j same hj)

  module _ (i : ℕ) where
    -- A step of a thread that is alone inside its node, from then on or up to then.
    pub within :
        (m' : Cohort) (p' : Raw Poll Leave) (r' : Raw Ticket.Poll Ticket.Leave) (flag : Bool)
        → ((j : ℕ) → i ≢ j → node j ≡ node i → inside (pc j) ≡ false)
        → Tickets.Inv n
            (m'.local_locks (node i))
            (update (side nodes node (node i) pc) i (local_place p'))
        → ((k : ℕ) → (node i == k) ≡ false → m'.local_locks k ≡ m.local_locks k)
        → Tickets.Inv nodes m'.top_lock (update tops (node i) r')
        → m'.top_grant ≡ update m.top_grant (node i) flag
        → Knows (node i) flag r' p'
        → (flag ≡ true → (r' ≡ held) × (m'.top_home ≡ some (node i)))
        → (inside p' ≡ false → flag ≡ false → r' ≡ idle)
        → (at_home p' ≡ true → m'.top_home ≡ some (node i))
        → (m'.top_home ≡ m.top_home) ⊎ (tops (node i) ≡ held)
        → Inv nodes node n m' (update pc i p')
    within m' p' r' flag alone loc locs top flags own up down home stays = record {
      tops = update tops (node i) r';
      below = λ k. elim (Bool-cases (node i == k)) [
        | inl e ↦
            subst (λ k. Tickets.Inv n (m'.local_locks k) (side nodes node k (update pc i p')))
              ((==_iff (node i) k).0 e)
              (subst (Tickets.Inv n (m'.local_locks (node i)))
                (sym (side-update local_place node pc i p')) loc)
        | inr e ↦
            subst (λ c. Tickets.Inv n c (side nodes node k (update pc i p'))) (sym (locs k e))
              (subst (Tickets.Inv n (m.local_locks k))
                (sym (side-other local_place node pc i k p' e)) (below k))
      ];
      above = top;
      granted = λ k h. ground (arith, flag_at k, granted k, up, other_held k);
      rest = λ k h f. elim (Bool-cases (node i == k)) [
        | inl e ↦ ground (arith, flag_at k, h i, down)
        | inr e ↦ ground (arith, flag_at k, rest k (λ j at. ground (arith, h j)))
      ];
      knows = λ j. known j;
      homes = λ j h. ground (
        arith,
        alone j,
        at_home-inside (pc j),
        homes j,
        other_held (node j),
        at_home-Knows (node j) (m.top_grant (node j)) (tops (node j)) (pc j),
        knows j,
      );
    }
      where
        flag_at : (k : ℕ) → m'.top_grant k ≡ update m.top_grant (node i) flag k
        flag_at k = ap (λ f. f k) flags

        other_held : (k : ℕ) → tops k ≡ held → tops (node i) ≡ held → k ≡ node i
        other_held k h h' = above.unique k (node i) m.top_lock.grant (rw h refl) (rw h' refl)

        mine :
            Knows
              (node i)
              (m'.top_grant (node i))
              (update tops (node i) r' (node i))
              (update pc i p' i)
        mine = rw (flag_at (node i), ==_refl (node i), ==_refl i) own

        known :
            (j : ℕ)
            → Knows
                (node j)
                (m'.top_grant (node j))
                (update tops (node i) r' (node j))
                (update pc i p' j)
        known j = elim (Bool-cases (i == j)) [
          | inl e ↦
              subst
                (λ j.
                  Knows (node j) (m'.top_grant (node j)) (update tops (node i) r' (node j))
                    (update pc i p' j))
                ((==_iff i j).0 e) mine
          | inr e ↦ elim (Bool-cases (node i == node j)) [
            | inl s ↦ rw e (outside_Knows _ _ _ (pc j) (alone j (ground arith) (ground arith)))
            | inr d ↦ rw (flag_at (node j), d, e) (knows j)
          ]
        ]

    -- A step in front of the lock of the node.
    pub around :
        (c : Counters) (p' : Raw Poll Leave)
        → inside (pc i) ≡ false
        → inside p' ≡ false
        → Tickets.Inv n c (update (side nodes node (node i) pc) i (local_place p'))
        → Inv nodes node n
            (record m { local_locks = update m.local_locks (node i) c })
            (update pc i p')
    around c p' out out' loc = record {
      tops = tops;
      below = λ k. elim (Bool-cases (node i == k)) [
        | inl e ↦ rw e (
            subst (λ k. Tickets.Inv n c (side nodes node k (update pc i p')))
              ((==_iff (node i) k).0 e)
              (subst (Tickets.Inv n c) (sym (side-update local_place node pc i p')) loc))
        | inr e ↦ rw e (
            subst (Tickets.Inv n (m.local_locks k)) (sym (side-other local_place node pc i k p' e))
              (below k))
      ];
      above = above;
      granted = granted;
      rest = λ k h f. rest k (λ j at. ground (arith, h j at)) f;
      knows = λ j. elim (Bool-cases (i == j)) [
        | inl e ↦ rw e (outside_Knows _ _ _ p' out')
        | inr e ↦ rw e (knows j)
      ];
      homes = λ j h. ground (arith, homes j, at_home-inside p');
    }
