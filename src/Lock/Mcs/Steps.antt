-- ===== src/Lock/Mcs/Steps.antt =====
-- Each step of the MCS lock keeps its queue, and the lock as an implementation of the interface.
use dal.Prelude.{
  ℕ, ◌≡◌, ◌≢◌, refl, ap, sym, ◌∙◌, true, false, Option, none, some, arith, update, Bool-cases,
  Option-cases, inl, inr, ◌==◌, ==_iff, ==_refl, update_same, subst,
}
use dal.Lock.Raw.{RawLock, Raw, idle, polling, held, leaving, settle, settle_leave}
use dal.Lock.Word.{locked}
use dal.Lock.Mcs.{
  Nodes, Poll, clear_next, clear_spin, enqueue, link, wait, try_next, try_spin, try_cas, try_tail,
  after_swap, Leave, read_next, cas_tail, wait_next, load_next, wake, if_next, is_node, poll, leave,
}
use dal.Lock.Mcs.Queue.{queued, waits, Local, Inv}
use dal.Lock.Mcs.Moves.{
  write_own, restate, enter_empty, enter_behind, link_up, leave_empty, hand_over,
}

pub start :
    {next : ℕ → Option ℕ} {spin : ℕ → ℕ}
    → Inv (record { tail = none; next = next; spin = spin }) (λ i. idle)
start = record {
  first = 0;
  last = 0;
  at = λ k. 0;
  pos = λ i. 0;
  order = omega arith;
  placed = λ i h. cc;
  filled = λ k lo hi. absurd (omega arith);
  tail_none = λ e. refl;
  tail_some = λ k lo e. absurd (omega arith);
  behind = λ i h. cc;
  links = λ i h. cc;
  preds = λ i p h. cc;
  open_end = λ k lo e. absurd (omega arith);
  spins = λ i h. cc;
  woken = λ i h. cc;
  locals = λ i. tt;
}

is_node-none : (i : ℕ) (t : Option ℕ) → is_node i t ≡ false → t ≢ some i
is_node-none i none h = λ e. ground arith
is_node-none i (some j) h = λ e. ground (arith, ==_refl j)

is_node-some : {i : ℕ} (t : Option ℕ) → is_node i t ≡ true → t ≡ some i
is_node-some none h = absurd (ground arith)
is_node-some {i = i} (some j) h = ap some (sym ((==_iff i j).0 h))

module _ {m : Nodes} {pc : ℕ → Raw Poll Leave} (v : Inv m pc) (i : ℕ) where
  own_next :
      (next : Option ℕ) (p' : Raw Poll Leave)
      → queued (pc i) ≡ false
      → queued p' ≡ false
      → Local (record m { next = update m.next i next }) i p'
      → Inv (record m { next = update m.next i next }) (update pc i p')
  own_next next p' out out' loc =
      subst (λ f. Inv (record m { next = update m.next i next; spin = f }) (update pc i p')) same
        (write_own v i next (m.spin i) p' out out' (
          subst (λ f. Local (record m { next = update m.next i next; spin = f }) i p') (sym same)
            loc))
    where
      same : update m.spin i (m.spin i) ≡ m.spin
      same = update_same m.spin i (m.spin i) refl

  own_spin :
      (spin : ℕ) (p' : Raw Poll Leave)
      → queued (pc i) ≡ false
      → queued p' ≡ false
      → Local (record m { spin = update m.spin i spin }) i p'
      → Inv (record m { spin = update m.spin i spin }) (update pc i p')
  own_spin spin p' out out' loc =
      subst (λ f. Inv (record m { next = f; spin = update m.spin i spin }) (update pc i p')) same
        (write_own v i (m.next i) spin p' out out' (
          subst (λ f. Local (record m { next = f; spin = update m.spin i spin }) i p') (sym same)
            loc))
    where
      same : update m.next i (m.next i) ≡ m.next
      same = update_same m.next i (m.next i) refl

  enter :
      queued (pc i) ≡ false
      → (m.next i ≡ none) × (m.spin i ≡ locked)
      → (t : Option ℕ) → m.tail ≡ t
      → Inv (record m { tail = some i }) (update pc i (settle (after_swap t)))
  enter out own none e = enter_empty v i out e own.0
  enter out own (some p) e = enter_behind v i p out e own

  try_enter :
      queued (pc i) ≡ false
      → (m.next i ≡ none) × (m.spin i ≡ locked)
      → (t : Option ℕ) → m.tail ≡ t
      → Inv (try_tail m i t).0 (update pc i (settle (try_tail m i t).1))
  try_enter out own none e = enter_empty v i out e own.0
  try_enter out own (some p) e = restate v i idle (sym out) (λ h ne. cc) (λ x h. cc) (λ h f. cc) tt

  pub Inv-poll :
      (q : Poll) → pc i ≡ polling q → Inv (poll i m q).0 (update pc i (settle (poll i m q).1))
  unfolding poll
  Inv-poll clear_next e = own_next none (polling clear_spin) (rw e refl) refl (ground arith)
  Inv-poll clear_spin e =
      own_spin locked (polling enqueue) (rw e refl) refl
        (subst (Local m i) e (v.locals i), ground arith)
  Inv-poll enqueue e = enter (rw e refl) (subst (Local m i) e (v.locals i)) m.tail refl
  Inv-poll (link p) e = link_up v i p e
  Inv-poll wait e = elim (Bool-cases (m.spin i == locked)) [
    | inl l ↦ rw l (
        restate v i (polling wait) (rw e refl) (λ h ne. rw e (refl, refl)) (λ x h. cc)
          (λ h f. v.woken i e f) tt)
    | inr u ↦ rw u (
        restate v i held (rw e refl) (λ h ne. absurd (ground (arith, v.spins i))) (λ x h. cc)
          (λ h f. cc) tt)
  ]
  Inv-poll try_next e = own_next none (polling try_spin) (rw e refl) refl (ground arith)
  Inv-poll try_spin e =
      own_spin locked (polling try_cas) (rw e refl) refl
        (subst (Local m i) e (v.locals i), ground arith)
  Inv-poll try_cas e = try_enter (rw e refl) (subst (Local m i) e (v.locals i)) m.tail refl

  -- A step of the thread that has the first place.
  in_place :
      (p' : Raw Poll Leave)
      → queued (pc i) ≡ true
      → waits (pc i) ≡ false
      → queued p' ≡ true
      → waits p' ≡ false
      → Local m i p'
      → Inv m (update pc i p')
  in_place p' on w on' w' loc =
      restate v i p' (on' ∙ sym on) (λ h ne. absurd (ground (arith, v.behind i)))
        (λ x h. ground arith) (λ h f. ground arith) loc

  look :
      (here : Leave)
      → queued (pc i) ≡ true
      → waits (pc i) ≡ false
      → Local m i (leaving here)
      → Inv m (update pc i (leaving (if_next (m.next i) here)))
  look here on w loc = elim (Option-cases (m.next i)) [
    | inl e ↦ rw e (in_place (leaving here) on w refl refl loc)
    | inr (n, e) ↦ rw e (in_place (leaving load_next) on w refl refl (ground arith))
  ]

  pub Inv-leave :
      (r : Leave)
      → pc i ≡ leaving r
      → Inv (leave i m r).0 (update pc i (settle_leave (leave i m r).1))
  unfolding leave
  Inv-leave read_next e = look cas_tail (rw e refl) (rw e refl) tt
  Inv-leave cas_tail e = elim (Bool-cases (is_node i m.tail)) [
    | inl t ↦ rw t (leave_empty v i e (is_node-some m.tail t))
    | inr t ↦
        rw t
          (in_place (leaving wait_next) (rw e refl) (rw e refl) refl refl (is_node-none i m.tail t))
  ]
  Inv-leave wait_next e = look wait_next (rw e refl) (rw e refl) (subst (Local m i) e (v.locals i))
  Inv-leave load_next e = elim (Option-cases (m.next i)) [
    | inl f ↦ absurd (subst (Local m i) e (v.locals i) f)
    | inr (n, f) ↦ rw f (in_place (leaving (wake n)) (rw e refl) (rw e refl) refl refl f)
  ]
  Inv-leave (wake n) e = hand_over v i n e

  -- A step outside the queue that is about to write its own node.
  pub outside :
      (p' : Raw Poll Leave)
      → queued (pc i) ≡ false
      → queued p' ≡ false
      → Local m i p'
      → Inv m (update pc i p')
  outside p' out out' loc =
      restate v i p' (out' ∙ sym out) (λ h ne. absurd (ground (arith, out'))) (λ x h. ground arith)
        (λ h f. ground arith) loc

  pub Inv-unlock : pc i ≡ held → Inv m (update pc i (leaving read_next))
  Inv-unlock e = in_place (leaving read_next) (rw e refl) (rw e refl) refl refl tt

  -- Holders have the first place.
  pub holder : waits (pc i) ≡ false → queued (pc i) ≡ true → v.at v.first ≡ i
  holder w on = ground (arith, v.behind i, v.placed i)

-- The first values of the nodes are of no account: every thread sets its own before it enters.
abbrev pub mcs : RawLock
mcs = record {
  Mem = Nodes;
  Poll = Poll;
  Leave = Leave;
  create = record { tail = none; next = λ i. none; spin = λ i. locked };
  lock_entry = clear_next;
  trylock_entry = try_next;
  unlock_entry = read_next;
  poll = poll;
  leave = leave;
  Fits = λ n. Unit;
  Inv = λ n. Inv;
  inv_create = λ {n} f. start;
  inv_lock = λ {n} {m} {pc} i v lt e. outside v i (polling clear_next) (rw e refl) refl tt;
  inv_trylock = λ {n} {m} {pc} i v lt e. outside v i (polling try_next) (rw e refl) refl tt;
  inv_poll = λ {n} {m} {pc} i q v lt e. Inv-poll v i q e;
  inv_unlock = λ {n} {m} {pc} i v lt e. Inv-unlock v i e;
  inv_leave = λ {n} {m} {pc} i r v lt e. Inv-leave v i r e;
  exclusive = λ {n} {m} {pc} i j v lti ltj hi hj.
      sym (holder v i (rw hi refl) (rw hi refl)) ∙ holder v j (rw hj refl) (rw hj refl);
}
