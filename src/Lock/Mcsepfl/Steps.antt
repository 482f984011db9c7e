-- ===== src/Lock/Mcsepfl/Steps.antt =====
-- The steps of a release of mcsepfl.c, and the lock as an implementation of the interface.
use dal.Prelude.{ℕ, ◌≡◌, refl, true, false, Option, none, some, arith, update, Bool-cases, inl, inr}
use dal.Lock.Raw.{RawLock, Raw, idle, polling, held, leaving, settle_leave}
use dal.Lock.Word.{unlocked}
use dal.Lock.Mcs
use dal.Lock.Mcs.{Nodes, Leave, read_next, cas_tail, wait_next, load_next, wake, is_node}
use dal.Lock.Mcs.Queue
use dal.Lock.Mcs.Steps as McsSteps
use dal.Lock.Mcs.Steps.{mcs}
use dal.Lock.Mcsepfl.{Poll, clear_next, try_next, poll, leave, created}
use dal.Lock.Mcsepfl.Acquire.{back, marked, Inv, keep, Inv-poll}

module _ {m : Nodes} {pc : ℕ → Raw Poll Leave} (v : Inv m pc) (i : ℕ) where
  open v use {spin, queue, agrees}

  abbrev seen_as : ℕ → Raw Mcs.Poll Leave
  seen_as j = back (pc j)

  left :
      (spin' : ℕ → ℕ) (m' : Nodes) (o : Option Leave)
      → Queue.Inv (record m' { spin = spin' }) (update seen_as i (settle_leave o))
      → ((j : ℕ) → marked (pc j) ≡ true → m'.spin j ≡ spin' j)
      → Inv m' (update pc i (settle_leave o))
  left spin' m' none q h = keep v i m' spin' idle idle refl q (λ h. cc) (λ j d. h j)
  left spin' m' (some r) q h =
      keep v i m' spin' (leaving r) (leaving r) refl q (λ h. cc) (λ j d. h j)

  pub Inv-leave :
      (r : Leave)
      → pc i ≡ leaving r
      → Inv (leave i m r).0 (update pc i (settle_leave (leave i m r).1))
  unfolding leave Mcs.leave
  Inv-leave read_next e =
      left spin m (Mcs.leave i (record m { spin = spin }) read_next).1
        (McsSteps.Inv-leave queue i read_next (rw e refl)) agrees
  Inv-leave cas_tail e =
      let next = McsSteps.Inv-leave queue i cas_tail (rw e refl) in
      elim (Bool-cases (is_node i m.tail)) [
        | inl t ↦ rw t (left spin (record m { tail = none }) none (rw t at next) agrees)
        | inr t ↦ rw t (left spin m (some wait_next) (rw t at next) agrees)
      ]
  Inv-leave wait_next e =
      left spin m (Mcs.leave i (record m { spin = spin }) wait_next).1
        (McsSteps.Inv-leave queue i wait_next (rw e refl)) agrees
  Inv-leave load_next e =
      left spin m (Mcs.leave i (record m { spin = spin }) load_next).1
        (McsSteps.Inv-leave queue i load_next (rw e refl)) agrees
  Inv-leave (wake n) e =
      left (update spin n unlocked) (record m { spin = update m.spin n unlocked }) none
        (McsSteps.Inv-leave queue i (wake n) (rw e refl)) (λ j h. ground (arith, agrees j))

  pub begin :
      (q : Poll) (q' : Mcs.Poll)
      → pc i ≡ idle
      → back (polling q) ≡ polling q'
      → marked (polling q) ≡ false
      → Queue.Inv (record m { spin = spin }) (update seen_as i (polling q'))
      → Inv m (update pc i (polling q))
  begin q q' e same out t =
      keep v i m spin (polling q) (polling q') same t (λ h. cc) (λ j d. agrees j)

  pub Inv-unlock : pc i ≡ held → Inv m (update pc i (leaving read_next))
  Inv-unlock e =
      keep v i m spin (leaving read_next) (leaving read_next) refl
        (McsSteps.Inv-unlock queue i (rw e refl)) (λ h. cc) (λ j d. agrees j)

pub start : {next : ℕ → Option ℕ} {spin : ℕ → ℕ} → Inv (created next spin) (λ _. idle)
start {next} {spin} = record { spin = spin; queue = McsSteps.start; agrees = λ j h. cc }

-- The first values of the nodes are of no account.
module _ (next : ℕ → Option ℕ) (spin : ℕ → ℕ) where
  abbrev pub mcsepfl : RawLock
  mcsepfl = record {
    Mem = Nodes;
    Poll = Poll;
    Leave = Leave;
    create = created next spin;
    lock_entry = clear_next;
    trylock_entry = try_next;
    unlock_entry = read_next;
    poll = poll;
    leave = leave;
    Fits = λ n. Unit;
    Inv = λ n. Inv;
    inv_create = λ {n} f. start;
    inv_lock = λ {n} {m} {pc} i v lt e.
        begin v i clear_next Mcs.clear_next e refl refl (mcs.inv_lock i v.queue lt (rw e refl));
    inv_trylock = λ {n} {m} {pc} i v lt e.
        begin v i try_next Mcs.try_next e refl refl (mcs.inv_trylock i v.queue lt (rw e refl));
    inv_poll = λ {n} {m} {pc} i q v lt e. Inv-poll v i q e;
    inv_unlock = λ {n} {m} {pc} i v lt e. Inv-unlock v i e;
    inv_leave = λ {n} {m} {pc} i r v lt e. Inv-leave v i r e;
    exclusive = λ {n} {m} {pc} i j v lti ltj hi hj.
        mcs.exclusive i j v.queue lti ltj (rw hi refl) (rw hj refl);
  }
