-- ===== src/Lock/Ticket/Tickets.antt =====
-- Who holds which ticket, modulo 2 ^ 32.
use dal.Prelude.{
  ℕ, ◌+◌, ◌-◌, ◌%◌, ◌^◌, ◌<◌, ◌≡◌, ◌≢◌, refl, Bool, true, false, Option, none, some, arith, update,
  tally, tally-update, tally-le, tally-none, ◌==◌, Bool-cases, inl, inr, ◌*◌, ==_iff,
}
use dal.Lock.Raw.{RawLock, Raw, idle, polling, held, leaving, settle, settle_leave}
use dal.Lock.Ticket.{
  Counters, Poll, draw, spin, read_request, try_cas, Leave, read_grant, write_grant, poll, leave,
  u32, word_of, of_word,
}

-- A thread that has drawn a ticket and not passed it on.
abbrev pub queued : Raw Poll Leave → Bool
queued idle = false
queued (polling (spin t)) = true
queued (polling _) = false
queued held = true
queued (leaving _) = true

abbrev pub ticket : Counters → Raw Poll Leave → Option ℕ
ticket m idle = none
ticket m (polling (spin t)) = some t
ticket m (polling _) = none
ticket m held = some m.grant
ticket m (leaving _) = some m.grant

-- How many tickets are served before `t`.
abbrev pub ahead : Counters → ℕ → ℕ
ahead m t = (t + 2 ^ 32 - m.grant) % 2 ^ 32

abbrev pub IsFresh : Counters → Raw Poll Leave → Type 0
IsFresh m (leaving (write_grant g)) = g ≡ m.grant
IsFresh m (polling (try_cas me)) = me < 2 ^ 32
IsFresh m _ = Unit

pub record Inv (n : ℕ) (m : Counters) (pc : ℕ → Raw Poll Leave) : Type 0 where
  pub few : n < 2 ^ 32
  pub words : (m.request < 2 ^ 32) × (m.grant < 2 ^ 32)
  pub drawn : m.request ≡ (m.grant + tally queued n pc) % 2 ^ 32
  pub range : (j t : ℕ) → ticket m (pc j) ≡ some t → (t < 2 ^ 32) × (ahead m t < tally queued n pc)
  pub unique : (i j t : ℕ) → ticket m (pc i) ≡ some t → ticket m (pc j) ≡ some t → i ≡ j
  pub fresh : (j : ℕ) → IsFresh m (pc j)

pub Inv-create : {n : ℕ} → n < 2 ^ 32 → Inv n (record { request = 0; grant = 0 }) (λ _. idle)
Inv-create {n} few = record {
  few = few;
  words = (omega arith, omega arith);
  drawn = rw (tally-none queued n (λ _. idle) (λ i. refl)) refl;
  range = λ j t h. cc;
  unique = λ i j t h k. cc;
  fresh = λ j. tt;
}

-- The 64-bit compare-and-swap compares both counters, and on success replaces `request` alone.
cas_compares :
    (m : Counters) (me : ℕ)
    → (m.request < 2 ^ 32) × (m.grant < 2 ^ 32)
    → me < 2 ^ 32
    → word_of m ≡ me * 2 ^ 32 + me
    → (m.request ≡ me) × (m.grant ≡ me)
unfolding word_of
cas_compares m me small lt e = omega arith

cas_replaces :
    (m : Counters) (me : ℕ)
    → me < 2 ^ 32
    → (m.request ≡ me) × (m.grant ≡ me)
    → of_word (u32 (me + 1) * 2 ^ 32 + me) ≡ record m { request = u32 (m.request + 1) }
unfolding of_word
cas_replaces m me lt both = ground arith

module _ {n : ℕ} {m : Counters} {pc : ℕ → Raw Poll Leave} (v : Inv n m pc) (i : ℕ)
    (lt : i < n) where
  open v use {few, words, drawn, range, unique, fresh}

  -- A step with the same counters and the same ticket.
  pub same_ticket :
      (p' : Raw Poll Leave)
      → queued p' ≡ queued (pc i)
      → ticket m p' ≡ ticket m (pc i)
      → IsFresh m p'
      → Inv n m (update pc i p')
  same_ticket p' q t f = record {
    few = few;
    words = words;
    drawn = ground (arith, tally-update queued n pc i p' lt);
    range = λ j x h. ground (arith, tally-update queued n pc i p' lt, range i x, range j x);
    unique = λ a b x ha hb. ground (arith, unique a b x, unique a i x, unique i b x);
    fresh = λ j. ground (arith, fresh j);
  }

  -- A thread with no ticket draws the next one.
  draw_ticket :
      (p' : Raw Poll Leave)
      → queued (pc i) ≡ false
      → queued p' ≡ true
      → ticket m p' ≡ some m.request
      → IsFresh m p'
      → Inv n (record m { request = u32 (m.request + 1) }) (update pc i p')
  draw_ticket p' out q t f = record {
    few = few;
    words = omega arith;
    drawn = ground (arith, tally-update queued n pc i p' lt);
    range = λ j x h. ground (arith, tally-update queued n pc i p' lt, room, range j x);
    unique = λ a b x ha hb. ground (arith, range a x, range b x, unique a b x, before);
    fresh = λ j. ground (arith, fresh j);
  }
    where
      room : tally queued n (update pc i p') < 2 ^ 32
      room = omega (arith, tally-le queued n (update pc i p'))

      before : tally queued n pc < 2 ^ 32
      before = omega (arith, tally-le queued n pc)

  -- The holder passes the lock to the next ticket.
  pass_on :
      (g : ℕ)
      → pc i ≡ leaving (write_grant g)
      → Inv n (record m { grant = u32 (g + 1) }) (update pc i idle)
  pass_on g e = record {
    few = few;
    words = omega arith;
    drawn = omega (arith, current, counts);
    range = λ j x h. ground (arith, current, counts, bounds, range j x, unique i j m.grant);
    unique = λ a b x ha hb. ground (arith, unique i a m.grant, unique i b m.grant, unique a b x);
    fresh = λ j. ground (arith, fresh j, unique i j m.grant);
  }
    where
      current : g ≡ m.grant
      current = ground (arith, fresh i)

      counts : tally queued n (update pc i idle) + 1 ≡ tally queued n pc
      counts = ground (arith, tally-update queued n pc i idle lt)

      bounds : tally queued n pc < 2 ^ 32
      bounds = omega (arith, tally-le queued n pc)

  win :
      (me : ℕ)
      → pc i ≡ polling (try_cas me)
      → word_of m ≡ me * 2 ^ 32 + me
      → Inv n (of_word (u32 (me + 1) * 2 ^ 32 + me)) (update pc i held)
  win me e won =
      rw (cas_replaces m me small both) (draw_ticket held (rw e) refl (ground (arith, both)) tt)
    where
      small : me < 2 ^ 32
      small = ground (arith, fresh i)

      both : (m.request ≡ me) × (m.grant ≡ me)
      both = cas_compares m me words small won

  pub Inv-poll :
      (q : Poll) → pc i ≡ polling q → Inv n (poll i m q).0 (update pc i (settle (poll i m q).1))
  unfolding poll
  Inv-poll draw e = draw_ticket (polling (spin m.request)) (rw e) refl refl tt
  Inv-poll (spin t) e = elim (Bool-cases (m.grant == t)) [
    | inl s ↦ rw s (same_ticket held (rw e) (ground arith) tt)
    | inr s ↦ rw s (same_ticket (polling (spin t)) (rw e) (rw e) tt)
  ]
  Inv-poll read_request e = same_ticket (polling (try_cas m.request)) (rw e) (rw e) (words.0)
  Inv-poll (try_cas me) e = elim (Bool-cases (word_of m == me * 2 ^ 32 + me)) [
    | inl s ↦ rw s (win me e ((==_iff (word_of m) _).0 s))
    | inr s ↦ rw s (same_ticket idle (rw e) (rw e) tt)
  ]

  pub Inv-unlock : pc i ≡ held → Inv n m (update pc i (leaving read_grant))
  Inv-unlock e = same_ticket (leaving read_grant) (rw e) (rw e) tt

  pub Inv-leave :
      (r : Leave)
      → pc i ≡ leaving r
      → Inv n (leave i m r).0 (update pc i (settle_leave (leave i m r).1))
  unfolding leave
  Inv-leave read_grant e = same_ticket (leaving (write_grant m.grant)) (rw e) (rw e) refl
  Inv-leave (write_grant g) e = pass_on g e

-- Waiting threads in a state that keeps the invariant.
pub waiters :
    {n : ℕ} {m : Counters} {pc : ℕ → Raw Poll Leave} (v : Inv n m pc) (i j t u : ℕ)
    → i ≢ j
    → pc i ≡ polling (spin t)
    → pc j ≡ polling (spin u)
    → (t ≢ u) × (ahead m t < n)
waiters {n} {m} {pc} v i j t u differ ei ej = (
  λ same. differ (v.unique i j t (rw ei) (rw (ej, same))),
  omega (arith, v.range i t (rw ei), tally-le queued n pc),
)

abbrev pub ticket_lock : RawLock
ticket_lock = record {
  Mem = Counters;
  Poll = Poll;
  Leave = Leave;
  create = record { request = 0; grant = 0 };
  lock_entry = draw;
  trylock_entry = read_request;
  unlock_entry = read_grant;
  poll = poll;
  leave = leave;
  Fits = λ n. n < 2 ^ 32;
  Inv = Inv;
  inv_create = λ {n} few. Inv-create few;
  inv_lock = λ {n} {m} {pc} i v lt e. same_ticket v i lt (polling draw) (rw e) (rw e) tt;
  inv_trylock = λ {n} {m} {pc} i v lt e. same_ticket v i lt (polling read_request) (rw e) (rw e) tt;
  inv_poll = λ {n} {m} {pc} i q v lt e. Inv-poll v i lt q e;
  inv_unlock = λ {n} {m} {pc} i v lt e. Inv-unlock v i lt e;
  inv_leave = λ {n} {m} {pc} i r v lt e. Inv-leave v i lt r e;
  exclusive = λ {n} {m} {pc} i j v lti ltj hi hj. v.unique i j m.grant (rw hi) (rw hj);
}
