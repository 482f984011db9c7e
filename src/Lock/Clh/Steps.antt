-- ===== src/Lock/Clh/Steps.antt =====
-- Each step of the CLH lock keeps its queue, and the lock as an implementation of the interface.
use dal.Prelude.{
  ℕ, suc, ◌≡◌, ◌≢◌, refl, sym, ◌∙◌, subst, false, Option, none, some, arith, update, Bool-cases,
  inl, inr, ◌==◌,
}
use dal.Lock.Raw.{RawLock, Raw, idle, polling, held, leaving, settle, settle_leave}
use dal.Lock.Word.{locked}
use dal.Lock.Clh.{
  Nodes, Poll, mark, swap, wait, set_head, adopt, refuse, Leave, read_head, wake, loaded, created,
  poll, leave,
}
use dal.Lock.Clh.Queue.{queued, Local, Inv}
use dal.Lock.Clh.Moves.{start, restate, mark_own, enter, store_head, take_node, hand_over}

module _ {m : Nodes} {pc : ℕ → Raw Poll Leave} (v : Inv m pc) (i : ℕ) where
  open v use {pos, node, first, at, placed, filled, behind, free, busy, fresh, own, locals}

  here : (p : Raw Poll Leave) → pc i ≡ p → Local m node (pos i) i p
  here p e = subst (Local m node (pos i) i) e (locals i)

  pub Inv-poll :
      (q : Poll) → pc i ≡ polling q → Inv (poll i m q).0 (update pc i (settle (poll i m q).1))
  unfolding poll
  Inv-poll mark e = mark_own v i (rw e refl)
  Inv-poll swap e = enter v i e
  Inv-poll (wait p) e = elim (Bool-cases (m.spin p == locked)) [
    | inl l ↦ rw l (restate v i (polling (wait p)) (rw e refl) (λ h ne. refl) (here _ e))
    | inr u ↦ rw u (
        restate v i (polling (set_head p)) (rw e refl)
          (λ h ne. absurd (ground (arith, busy (pos i), here _ e, placed i))) (here _ e))
  ]
  Inv-poll (set_head p) e = store_head v i p e
  Inv-poll (adopt p) e = take_node v i p e
  Inv-poll refuse e = restate v i (polling refuse) (rw e refl) (λ h ne. cc) tt

  load :
      pc i ≡ leaving read_head
      → (h : Option ℕ) → m.head ≡ h
      → Inv m (update pc i (leaving (loaded h)))
  load e none f = absurd (ground (arith, here _ e))
  load e (some n) f =
      restate v i (leaving (wake n)) (rw e refl) (λ h ne. absurd (ground (arith, behind i)))
        (ground (arith, here _ e))

  pub Inv-leave :
      (r : Leave)
      → pc i ≡ leaving r
      → Inv (leave i m r).0 (update pc i (settle_leave (leave i m r).1))
  unfolding leave
  Inv-leave read_head e = load e m.head refl
  Inv-leave (wake n) e = hand_over v i n e

  pub outside :
      (q : Poll)
      → pc i ≡ idle
      → queued (polling q) ≡ false
      → Local m node (pos i) i (polling q)
      → Inv m (update pc i (polling q))
  outside q e out loc =
      restate v i (polling q) (out ∙ rw e refl) (λ h ne. absurd (ground (arith, out))) loc

  pub Inv-unlock : pc i ≡ held → Inv m (update pc i (leaving read_head))
  Inv-unlock e =
      restate v i (leaving read_head) (rw e refl) (λ h ne. absurd (ground (arith, behind i)))
        (here _ e)

  -- Holders have the first place.
  pub holder : pc i ≡ held → at first ≡ i
  holder e = ground (arith, behind i, placed i)

  -- A thread that releases finds its own former node at the head, and frees it.
  pub head_node :
      pc i ≡ leaving read_head
      → (n : ℕ) × (m.head ≡ some n) × (m.spin n ≡ locked) × (m.spin (m.current i) ≢ locked)
  head_node e = (
    node (suc (pos i)),
    (here _ e).1,
    ground (arith, busy (suc (pos i)), placed i, behind i),
    ground (arith, here _ e, free, behind i),
  )

  -- Threads outside own different nodes, and none owns the tail.
  pub owners :
      (j : ℕ)
      → i ≢ j
      → pc i ≡ idle
      → pc j ≡ idle
      → (m.current i ≢ m.current j) × (m.current i ≢ m.tail)
  owners j differ ei ej =
      (own i j (rw ei refl) (rw ej refl) differ, ground (arith, v.order, v.tail_is, fresh i v.last))

abbrev pub clh : RawLock
clh = record {
  Mem = Nodes;
  Poll = Poll;
  Leave = Leave;
  create = created;
  lock_entry = mark;
  trylock_entry = refuse;
  unlock_entry = read_head;
  poll = poll;
  leave = leave;
  Fits = λ n. Unit;
  Inv = λ n. Inv;
  inv_create = λ {n} f. start;
  inv_lock = λ {n} {m} {pc} i v lt e. outside v i mark e refl tt;
  inv_trylock = λ {n} {m} {pc} i v lt e. outside v i refuse e refl tt;
  inv_poll = λ {n} {m} {pc} i q v lt e. Inv-poll v i q e;
  inv_unlock = λ {n} {m} {pc} i v lt e. Inv-unlock v i e;
  inv_leave = λ {n} {m} {pc} i r v lt e. Inv-leave v i r e;
  exclusive = λ {n} {m} {pc} i j v lti ltj hi hj. sym (holder v i hi) ∙ holder v j hj;
}
