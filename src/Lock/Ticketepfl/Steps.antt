-- ===== src/Lock/Ticketepfl/Steps.antt =====
-- The steps of ticketepfl.c are steps of ticket.c, seen with `request` one higher.
use dal.Prelude.{
  ℕ, zero, suc, ◌+◌, ◌*◌, ◌^◌, ◌<◌, ◌≡◌, refl, arith, update, map-update, update_same, ◌==◌,
  Bool-cases, inl, inr, subst, sym, ltb, ◌∙◌, tally-none,
}
use dal.Lock.Raw.{RawLock, Raw, idle, polling, held, leaving, settle, settle_leave}
use dal.Lock.Ticket
use dal.Lock.Ticket.{Counters, u32, word_of, of_word}
use dal.Lock.Ticket.Tickets
use dal.Lock.Ticketepfl.{
  Poll, draw, watch, pause, read_request, try_cas, Leave, read_grant, write_grant, poll, leave,
  created, delayed, sub_abs,
}

-- The next ticket, where ticket.c keeps it.
abbrev pub view : Counters → Counters
view m = record { request = u32 (m.request + 1); grant = m.grant }

-- The thread of ticket.c.
abbrev pub back : Raw Poll Leave → Raw Ticket.Poll Ticket.Leave
back idle = idle
back (polling draw) = polling Ticket.draw
back (polling (watch t w p)) = polling (Ticket.spin t)
back (polling (pause t w p left)) = polling (Ticket.spin t)
back (polling read_request) = polling Ticket.read_request
back (polling (try_cas me)) = polling (Ticket.try_cas (u32 (me + 1)))
back held = held
back (leaving read_grant) = leaving Ticket.read_grant
back (leaving (write_grant g)) = leaving (Ticket.write_grant g)

abbrev pub IsSmall : Raw Poll Leave → Type 0
IsSmall (polling (try_cas me)) = me < 2 ^ 32
IsSmall _ = Unit

pub record Inv (n : ℕ) (m : Counters) (pc : ℕ → Raw Poll Leave) : Type 0 where
  pub small : m.request < 2 ^ 32
  pub tickets : Tickets.Inv n (view m) (λ j. back (pc j))
  pub seen : (j : ℕ) → IsSmall (pc j)

back-delayed : (t w p d : ℕ) → back (polling (delayed t w p d)) ≡ polling (Ticket.spin t)
back-delayed t w p d = elim (Bool-cases (ltb 1 d)) [
  | inl e ↦ elim (Bool-cases (d == p)) [ inl s ↦ rw (e, s) refl | inr s ↦ rw (e, s) refl ]
  | inr e ↦ rw e refl
]

delayed-IsSmall : (t w p d : ℕ) → IsSmall (polling (delayed t w p d))
delayed-IsSmall t w p d = elim (Bool-cases (ltb 1 d)) [
  | inl e ↦ elim (Bool-cases (d == p)) [ inl s ↦ rw (e, s) tt | inr s ↦ rw (e, s) tt ]
  | inr e ↦ rw e tt
]

of_word-halves :
    (a b : ℕ)
    → a < 2 ^ 32
    → b < 2 ^ 32
    → of_word (a * 2 ^ 32 + b) ≡ record { request = a; grant = b }
unfolding of_word
of_word-halves a b la lb = ground arith

-- The compare-and-swap finds what that of ticket.c finds in the view.
same_word :
    (m : Counters) (me : ℕ)
    → m.request < 2 ^ 32
    → m.grant < 2 ^ 32
    → me < 2 ^ 32
    → (word_of m == me * 2 ^ 32 + u32 (me + 1))
      ≡ (word_of (view m) == u32 (me + 1) * 2 ^ 32 + u32 (me + 1))
unfolding word_of
same_word m me a b c = ground arith

module _ {n : ℕ} {m : Counters} {pc : ℕ → Raw Poll Leave} (v : Inv n m pc) (i : ℕ)
    (lt : i < n) where
  open v use {small, tickets, seen}

  abbrev seen_as : ℕ → Raw Ticket.Poll Ticket.Leave
  seen_as j = back (pc j)

  keep :
      (m' : Counters) (p' : Raw Poll Leave) (p : Raw Ticket.Poll Ticket.Leave)
      → back p' ≡ p
      → m'.request < 2 ^ 32
      → IsSmall p'
      → Tickets.Inv n (view m') (update seen_as i p)
      → Inv n m' (update pc i p')
  keep m' p' p e lim s t = record {
    small = lim;
    tickets = rw (map-update back pc i p', e) t;
    seen = λ j. elim (Bool-cases (i == j)) [ inl h ↦ rw h s | inr h ↦ rw h (seen j) ];
  }

  -- A step that ticket.c does not have.
  stay : (p' : Raw Poll Leave) → back p' ≡ back (pc i) → IsSmall p' → Inv n m (update pc i p')
  stay p' e s =
      keep m p' (back (pc i)) e small s
        (subst (Tickets.Inv n (view m)) (sym (update_same seen_as i (back (pc i)) refl)) tickets)

  won :
      (me : ℕ)
      → pc i ≡ polling (try_cas me)
      → Inv n (poll i m (try_cas me)).0 (update pc i (settle (poll i m (try_cas me)).1))
  unfolding poll Ticket.poll
  won me e =
      let lim : me < 2 ^ 32 = subst IsSmall e (seen i) in
      let same = same_word m me small tickets.words.1 lim in
      let next = Tickets.Inv-poll tickets i lt (Ticket.try_cas (u32 (me + 1))) (rw e refl) in
      elim (Bool-cases (word_of m == me * 2 ^ 32 + u32 (me + 1))) [
        | inl t ↦
            rw (t, of_word-halves (u32 (me + 1)) (u32 (me + 1)) (omega arith) (omega arith))
              (keep (record { request = u32 (me + 1); grant = u32 (me + 1) }) held held refl
                (omega arith) tt
                (rw
                  (
                    sym same ∙ t,
                    of_word-halves (u32 (u32 (me + 1) + 1)) (u32 (me + 1)) (omega arith)
                        (omega arith),
                  )
                  at next))
        | inr t ↦ rw t (keep m idle idle refl small tt (rw (sym same ∙ t) at next))
      ]

  pub Inv-poll :
      (q : Poll) → pc i ≡ polling q → Inv n (poll i m q).0 (update pc i (settle (poll i m q).1))
  unfolding poll Ticket.poll
  Inv-poll draw e =
      keep _ _ _ refl (omega arith) tt (Tickets.Inv-poll tickets i lt Ticket.draw (rw e refl))
  Inv-poll (watch t w p) e =
      let next = Tickets.Inv-poll tickets i lt (Ticket.spin t) (rw e refl) in
      elim (Bool-cases (m.grant == t)) [
        | inl s ↦ rw s (keep m held held refl small tt (rw s at next))
        | inr s ↦ rw s (
            stay (polling (delayed t w p (sub_abs m.grant t)))
              (rw e (back-delayed t w p (sub_abs m.grant t)))
              (delayed-IsSmall t w p (sub_abs m.grant t)))
      ]
  Inv-poll (pause t w p zero) e = stay (polling (watch t w p)) (rw e refl) tt
  Inv-poll (pause t w p (suc left)) e = stay (polling (pause t w p left)) (rw e refl) tt
  Inv-poll read_request e =
      keep m (polling (try_cas m.request)) _ refl small small
        (Tickets.Inv-poll tickets i lt Ticket.read_request (rw e refl))
  Inv-poll (try_cas me) e = won me e

  pub Inv-leave :
      (r : Leave)
      → pc i ≡ leaving r
      → Inv n (leave i m r).0 (update pc i (settle_leave (leave i m r).1))
  unfolding leave Ticket.leave
  Inv-leave read_grant e =
      keep m (leaving (write_grant m.grant)) _ refl small tt
        (Tickets.Inv-leave tickets i lt Ticket.read_grant (rw e refl))
  Inv-leave (write_grant g) e =
      keep _ idle idle refl small tt
        (Tickets.Inv-leave tickets i lt (Ticket.write_grant g) (rw e refl))

  pub begin :
      (q : Poll)
      → pc i ≡ idle
      → IsSmall (polling q)
      → Tickets.Inv n (view m) (update seen_as i (back (polling q)))
      → Inv n m (update pc i (polling q))
  begin q e s t = keep m (polling q) (back (polling q)) refl small s t

  pub Inv-unlock : pc i ≡ held → Inv n m (update pc i (leaving read_grant))
  Inv-unlock e =
      keep m (leaving read_grant) _ refl small tt (Tickets.Inv-unlock tickets i lt (rw e refl))

pub Inv-created : {n : ℕ} → n < 2 ^ 32 → Inv n created (λ _. idle)
Inv-created {n} few = record {
  small = omega arith;
  tickets = record {
    few = few;
    words = (omega arith, omega arith);
    drawn = rw (tally-none Tickets.queued n (λ _. idle) (λ i. refl)) refl;
    range = λ j t h. cc;
    unique = λ i j t h k. cc;
    fresh = λ j. tt;
  };
  seen = λ j. tt;
}

abbrev pub ticketepfl : RawLock
ticketepfl = record {
  Mem = Counters;
  Poll = Poll;
  Leave = Leave;
  create = created;
  lock_entry = draw;
  trylock_entry = read_request;
  unlock_entry = read_grant;
  poll = poll;
  leave = leave;
  Fits = λ n. n < 2 ^ 32;
  Inv = Inv;
  inv_create = λ {n} few. Inv-created few;
  inv_lock = λ {n} {m} {pc} i v lt e.
      begin v i lt draw e tt (Tickets.ticket_lock.inv_lock i (v.tickets) lt (rw e refl));
  inv_trylock = λ {n} {m} {pc} i v lt e.
      begin v i lt read_request e tt (Tickets.ticket_lock.inv_trylock i (v.tickets) lt (rw e refl));
  inv_poll = λ {n} {m} {pc} i q v lt e. Inv-poll v i lt q e;
  inv_unlock = λ {n} {m} {pc} i v lt e. Inv-unlock v i lt e;
  inv_leave = λ {n} {m} {pc} i r v lt e. Inv-leave v i lt r e;
  exclusive = λ {n} {m} {pc} i j v lti ltj hi hj.
      Tickets.ticket_lock.exclusive i j v.tickets lti ltj (rw hi refl) (rw hj refl);
}
