-- ===== src/Lock/Clhepfl.antt =====
-- litl2/src/clhepfl.c: the CLH lock with a test for a NULL predecessor. It stops at the same places
-- as clh.c, whose program counters it shares.
pub mod Same
use dal.Prelude.{
  ℕ, suc, ◌≡◌, ◌≢◌, refl, false, Option, none, some, update, Bool-cases, inl, inr, ◌==◌,
  if◌then◌else◌, subst, ap, arith,
}
use dal.Lock.Raw.{RawLock, Raw, Outcome, pending, acquired, settle, settle_leave}
use dal.Lock.Word.{locked, unlocked}
use dal.Lock.Clh
use dal.Lock.Clh.{
  Poll, mark, swap, wait, set_head, adopt, refuse, Leave, read_head, wake, dummy, loaded,
}
use dal.Lock.Clh.Queue.{Inv}
use dal.Lock.Clh.Steps.{clh}

pub record Nodes : Type 0 where
  pub head : Option ℕ
  pub tail : Option ℕ
  pub spin : ℕ → ℕ
  pub current : ℕ → ℕ  -- of each thread's context

-- `clhepfl_mutex_create`, and `clhepfl_init_context` for every thread
abbrev pub created : Nodes
created = record { head = none; tail = some dummy; spin = λ n. unlocked; current = suc }

-- if (pred == NULL) return 0;
abbrev pub after_exchange : Option ℕ → Outcome Poll
after_exchange none = acquired
after_exchange (some pred) = pending (wait pred)

unfoldable pub poll : ℕ → Nodes → Poll → Nodes × Outcome Poll
poll i m mark = (record m { spin = update m.spin (m.current i) locked }, pending swap)
poll i m swap = (record m { tail = some (m.current i) }, after_exchange m.tail)
poll i m (wait pred) = (m, pending (if m.spin pred == locked then wait pred else set_head pred))
poll i m (set_head pred) = (record m { head = some (m.current i) }, pending (adopt pred))
poll i m (adopt pred) = (record m { current = update m.current i pred }, acquired)
poll i m refuse = (m, pending refuse)

unfoldable pub leave : ℕ → Nodes → Leave → Nodes × Option Leave
leave i m read_head = (m, some (loaded m.head))
leave i m (wake n) = (record m { spin = update m.spin n unlocked }, none)

abbrev tail_node : Option ℕ → ℕ
tail_node none = dummy
tail_node (some n) = n

-- The memory as clh.c has it.
abbrev pub view : Nodes → Clh.Nodes
view m = record { head = m.head; tail = tail_node m.tail; spin = m.spin; current = m.current }

same_wait :
    (t : Option ℕ)
    → t ≢ none
    → ◌≡◌ {A = Outcome Poll} (pending (wait (tail_node t))) (after_exchange t)
same_wait none h = absurd (h refl)
same_wait (some n) h = refl

-- Where the tail is not NULL, and it never is, both files do the same.
pub poll-view :
    (i : ℕ) (m : Nodes) (q : Poll)
    → m.tail ≢ none
    → Clh.poll i (view m) q ≡ (view (poll i m q).0, (poll i m q).1)
unfolding poll Clh.poll
poll-view i m mark some_tail = refl
poll-view i m swap some_tail =
    ap (λ o. (view (record m { tail = some (m.current i) }), o)) (same_wait m.tail some_tail)
poll-view i m (wait pred) some_tail = refl
poll-view i m (set_head pred) some_tail = refl
poll-view i m (adopt pred) some_tail = refl
poll-view i m refuse some_tail = refl

pub leave-view :
    (i : ℕ) (m : Nodes) (r : Leave)
    → Clh.leave i (view m) r ≡ (view (leave i m r).0, (leave i m r).1)
unfolding leave Clh.leave
leave-view i m read_head = refl
leave-view i m (wake n) = refl

pub poll_tail : (i : ℕ) (m : Nodes) (q : Poll) → m.tail ≢ none → (poll i m q).0.tail ≢ none
unfolding poll
poll_tail i m swap some_tail = λ h. ground arith
poll_tail i m mark some_tail = some_tail
poll_tail i m (wait pred) some_tail = some_tail
poll_tail i m (set_head pred) some_tail = some_tail
poll_tail i m (adopt pred) some_tail = some_tail
poll_tail i m refuse some_tail = some_tail

pub leave_tail : (i : ℕ) (m : Nodes) (r : Leave) → m.tail ≢ none → (leave i m r).0.tail ≢ none
unfolding leave
leave_tail i m read_head some_tail = some_tail
leave_tail i m (wake n) some_tail = some_tail

pub created_tail : created.tail ≢ none
created_tail h = ground arith

abbrev Viewed : Nodes → (ℕ → Raw Poll Leave) → Type 0
Viewed m pc = (m.tail ≢ none) × Inv (view m) pc

abbrev pub clhepfl : RawLock
clhepfl = record {
  Mem = Nodes;
  Poll = Poll;
  Leave = Leave;
  create = created;
  lock_entry = mark;
  trylock_entry = refuse;
  unlock_entry = read_head;
  poll = poll;
  leave = leave;
  Fits = λ n. Unit;
  Inv = λ n. Viewed;
  inv_create = λ {n} f. (created_tail, clh.inv_create {n = n} f);
  inv_lock = λ {n} {m} {pc} i v lt e. (v.0, clh.inv_lock {n = n} i v.1 lt e);
  inv_trylock = λ {n} {m} {pc} i v lt e. (v.0, clh.inv_trylock {n = n} i v.1 lt e);
  inv_poll = λ {n} {m} {pc} i q v lt e. (
    poll_tail i m q v.0,
    subst (λ r. Inv r.0 (update pc i (settle r.1))) (poll-view i m q v.0)
        (clh.inv_poll {n = n} i q v.1 lt e),
  );
  inv_unlock = λ {n} {m} {pc} i v lt e. (v.0, clh.inv_unlock {n = n} i v.1 lt e);
  inv_leave = λ {n} {m} {pc} i r v lt e. (
    leave_tail i m r v.0,
    subst (λ o. Inv o.0 (update pc i (settle_leave o.1))) (leave-view i m r)
        (clh.inv_leave {n = n} i r v.1 lt e),
  );
  exclusive = λ {n} {m} {pc} i j v lti ltj hi hj. clh.exclusive {n = n} i j v.1 lti ltj hi hj;
}
