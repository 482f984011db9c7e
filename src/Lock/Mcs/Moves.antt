-- ===== src/Lock/Mcs/Moves.antt =====
-- What a thread does to the queue of an MCS lock.
use dal.Prelude.{
  ℕ, suc, ◌-◌, ◌<◌, ◌≡◌, ◌≢◌, refl, true, false, Option, none, some, arith, update, subst,
}
use dal.Lock.Raw.{Raw, idle, polling, held, leaving}
use dal.Lock.Word.{locked, unlocked}
use dal.Lock.Mcs.{Nodes, Poll, link, wait, Leave, wake, cas_tail}
use dal.Lock.Mcs.Queue.{queued, waits, link_to, Local, Inv}

-- A waiting thread that its predecessor points to has linked itself.
pub only_wait :
    (p : Raw Poll Leave) (i n : ℕ) → waits p ≡ true → link_to p i ≡ some n → p ≡ polling wait
only_wait (polling (link x)) i n w h = absurd (ground arith)
only_wait (polling wait) i n w h = refl
only_wait p i n w h = absurd (ground arith)

module _ {m : Nodes} {pc : ℕ → Raw Poll Leave} (v : Inv m pc) (i : ℕ) where
  open v use {
    first, last, at, pos, order, placed, filled, tail_none, tail_some, behind, links, preds,
    open_end, spins, woken, locals,
  }

  -- A thread outside the queue writes its own node.
  pub write_own :
      (next : Option ℕ) (spin : ℕ) (p' : Raw Poll Leave)
      → queued (pc i) ≡ false
      → queued p' ≡ false
      → Local (record m { next = update m.next i next; spin = update m.spin i spin }) i p'
      → Inv (record m { next = update m.next i next; spin = update m.spin i spin }) (update pc i p')
  write_own next spin p' out out' loc = record {
    first = first;
    last = last;
    at = at;
    pos = pos;
    order = order;
    placed = λ j h. ground (arith, placed j);
    filled = λ k lo hi. ground (arith, filled k lo hi);
    tail_none = tail_none;
    tail_some = tail_some;
    behind = λ j h ne. ground (arith, behind j);
    links = λ j h ne. ground (arith, links j, placed j, filled (pos j - 1));
    preds = λ j p h. ground (arith, preds j p);
    open_end = λ k lo hi. ground (arith, open_end k lo hi, filled k lo);
    spins = λ j h ne. ground (arith, spins j);
    woken = λ j h e. ground (arith, woken j);
    locals = λ j. ground (arith, locals j, loc);
  }

  -- A step that changes no memory.
  pub restate :
      (p' : Raw Poll Leave)
      → queued p' ≡ queued (pc i)
      → (queued p' ≡ true → pos i ≢ first → (waits p' ≡ true) × (link_to p' i ≡ link_to (pc i) i))
      → ((x : ℕ) → p' ≢ polling (link x))
      → (p' ≡ polling wait → pos i ≡ first → m.spin i ≡ unlocked)
      → Local m i p'
      → Inv m (update pc i p')
  restate p' same w nolink up loc = record {
    first = first;
    last = last;
    at = at;
    pos = pos;
    order = order;
    placed = λ j h. ground (arith, placed j);
    filled = λ k lo hi. ground (arith, filled k lo hi);
    tail_none = tail_none;
    tail_some = tail_some;
    behind = λ j h ne. ground (arith, behind j, w);
    links = λ j h ne. ground (arith, links j, w);
    preds = λ j p h. ground (arith, preds j p, nolink p);
    open_end = open_end;
    spins = λ j h ne. ground (arith, spins j);
    woken = λ j h e. ground (arith, woken j, up);
    locals = λ j. ground (arith, locals j, loc);
  }

  -- A thread outside finds no tail: the queue is its node alone.
  pub enter_empty :
      queued (pc i) ≡ false
      → m.tail ≡ none
      → m.next i ≡ none
      → Inv (record m { tail = some i }) (update pc i held)
  enter_empty out free unset = record {
    first = last;
    last = suc last;
    at = update at last i;
    pos = update pos i last;
    order = omega arith;
    placed = λ j h. ground (arith, placed j, empty);
    filled = λ k lo hi. ground arith;
    tail_none = λ e. absurd (omega arith);
    tail_some = λ k lo e. ground arith;
    behind = λ j h ne. ground (arith, placed j, empty);
    links = λ j h ne. ground (arith, placed j, empty);
    preds = λ j p h. ground (arith, placed j, empty);
    open_end = λ k lo e. ground arith;
    spins = λ j h ne. ground (arith, placed j, empty);
    woken = λ j h e. ground (arith, placed j, empty);
    locals = λ j. ground (arith, locals j);
  }
    where
      empty : first ≡ last
      empty = ground (arith, order, tail_some (last - 1))

  -- Or it finds the tail, which it is to link to its own node.
  pub enter_behind :
      (p : ℕ)
      → queued (pc i) ≡ false
      → m.tail ≡ some p
      → (m.next i ≡ none) × (m.spin i ≡ locked)
      → Inv (record m { tail = some i }) (update pc i (polling (link p)))
  enter_behind p out busy own = record {
    first = first;
    last = suc last;
    at = update at last i;
    pos = update pos i last;
    order = omega (arith, order);
    placed = λ j h. ground (arith, placed j, order);
    filled = λ k lo hi. ground (arith, filled k lo);
    tail_none = λ e. absurd (omega (arith, order));
    tail_some = λ k lo e. ground arith;
    behind = λ j h ne. ground (arith, behind j);
    links = λ j h ne. ground (arith, links j, placed j, open_end (last - 1), more);
    preds = λ j x h. ground (arith, preds j x, placed j, tail_some (last - 1), more);
    open_end = λ k lo e. ground arith;
    spins = λ j h ne. ground (arith, spins j);
    woken = λ j h e. ground (arith, woken j, more);
    locals = λ j. ground (arith, locals j);
  }
    where
      more : first < last
      more = ground (arith, order, tail_none)

  -- The thread behind links its node to its predecessor's.
  pub link_up :
      (p : ℕ)
      → pc i ≡ polling (link p)
      → Inv (record m { next = update m.next p (some i) }) (update pc i (polling wait))
  link_up p e = record {
    first = first;
    last = last;
    at = at;
    pos = pos;
    order = order;
    placed = λ j h. ground (arith, placed j);
    filled = λ k lo hi. ground (arith, filled k lo hi);
    tail_none = tail_none;
    tail_some = tail_some;
    behind = λ j h ne. ground (arith, behind j);
    links = λ j h ne.
        ground (arith, links j, before, placed j, placed i, filled (pos j - 1), filled (pos i - 1));
    preds = λ j x h. ground (arith, preds j x);
    open_end = λ k lo hi.
        ground (arith, open_end k lo hi, before, filled k lo, filled (pos i - 1), placed i);
    spins = λ j h ne. ground (arith, spins j);
    woken = λ j h e. ground (arith, woken j, before);
    locals = λ j. ground (arith, locals j, before, placed i, filled (pos i - 1), links i);
  }
    where
      before : (pos i ≢ first) × (p ≡ at (pos i - 1))
      before = preds i p e

  -- The holder whose node is the last leaves the queue empty.
  pub leave_empty :
      pc i ≡ leaving cas_tail → m.tail ≡ some i → Inv (record m { tail = none }) (update pc i idle)
  leave_empty e mine = record {
    first = last;
    last = last;
    at = at;
    pos = pos;
    order = omega arith;
    placed = λ j h. ground (arith, placed j, alone, filled first, first_is);
    filled = λ k lo hi. absurd (omega arith);
    tail_none = λ e. refl;
    tail_some = λ k lo e. absurd (omega arith);
    behind = λ j h ne. ground (arith, placed j, alone, first_is);
    links = λ j h ne. ground (arith, placed j, alone, first_is);
    preds = λ j x h. ground (arith, placed j, alone, first_is);
    open_end = λ k lo hi. absurd (omega arith);
    spins = λ j h ne. ground (arith, placed j, alone, first_is);
    woken = λ j h e. ground (arith, placed j, alone, first_is);
    locals = λ j. ground (arith, locals j);
  }
    where
      first_is : (pos i ≡ first) × (at first ≡ i) × (first < last)
      first_is = ground (arith, behind i, placed i)

      alone : suc first ≡ last
      alone = ground (arith, first_is, tail_some (last - 1), filled (last - 1))

  -- The holder wakes its successor, which is first now.
  pub hand_over :
      (n : ℕ)
      → pc i ≡ leaving (wake n)
      → Inv (record m { spin = update m.spin n unlocked }) (update pc i idle)
  hand_over n e = record {
    first = suc first;
    last = last;
    at = at;
    pos = pos;
    order = omega (arith, first_is);
    placed = λ j h. ground (arith, placed j, first_is);
    filled = λ k lo hi. ground (arith, filled k, first_is, placed i);
    tail_none = λ e. absurd (omega (arith, more));
    tail_some = λ k lo e. tail_some k (omega arith) e;
    behind = λ j h ne. ground (arith, behind j, placed j, first_is);
    links = λ j h ne. ground (arith, links j, placed j, first_is);
    preds = λ j x h. ground (arith, preds j x, placed j, first_is, successor, more, placed n);
    open_end = λ k lo hi. open_end k (omega arith) hi;
    spins = λ j h ne. ground (arith, spins j, placed j, first_is, successor, filled (suc first));
    woken = λ j h e. ground (arith, woken j, placed j, first_is, successor, filled (suc first));
    locals = λ j. ground (arith, locals j, successor, filled (suc first));
  }
    where
      first_is : (pos i ≡ first) × (at first ≡ i) × (first < last)
      first_is = ground (arith, behind i, placed i)

      more : suc first < last
      more = ground (arith, first_is, open_end first, locals i)

      successor : (at (suc first) ≡ n) × (pc n ≡ polling wait)
      successor = (who, subst (λ b. pc b ≡ polling wait) who (only_wait _ _ n after.1 after.0))
        where
          after :
              (link_to (pc (at (suc first))) (at (suc first)) ≡ some n)
              × (waits (pc (at (suc first))) ≡ true)
          after = ground (
            arith,
            links (at (suc first)),
            filled (suc first),
            first_is,
            locals i,
            more,
            behind (at (suc first)),
          )

          who : at (suc first) ≡ n
          who = ground (arith, after)
