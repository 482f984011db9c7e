-- ===== src/Lock/Clh/Moves.antt =====
-- What a thread does to the queue of a CLH lock.
use dal.Prelude.{ℕ, suc, ◌<◌, ◌≡◌, ◌≢◌, refl, true, false, some, arith, update}
use dal.Lock.Raw.{Raw, idle, polling, held, leaving}
use dal.Lock.Word.{locked, unlocked}
use dal.Lock.Clh.{Nodes, Poll, swap, wait, set_head, adopt, Leave, wake, created}
use dal.Lock.Clh.Queue.{queued, waits, Local, Inv}

pub start : Inv created (λ i. idle)
start = record {
  first = 0;
  last = 0;
  at = λ k. 0;
  pos = λ i. 0;
  node = λ k. k;
  order = omega arith;
  tail_is = refl;
  placed = λ i h. cc;
  filled = λ k lo hi. absurd (omega arith);
  behind = λ i h. cc;
  free = refl;
  busy = λ k lo hi. absurd (omega arith);
  apart = λ j k lo lt hi. omega arith;
  fresh = λ i k h lo hi. omega arith;
  own = λ i j h h' ne. omega arith;
  locals = λ i. tt;
}

module _ {m : Nodes} {pc : ℕ → Raw Poll Leave} (v : Inv m pc) (i : ℕ) where
  open v use {
    first, last, at, pos, node, order, tail_is, placed, filled, behind, free, busy, apart, fresh,
    own, locals,
  }

  -- A step that changes no memory.
  pub restate :
      (p' : Raw Poll Leave)
      → queued p' ≡ queued (pc i)
      → (queued p' ≡ true → pos i ≢ first → waits p' ≡ true)
      → Local m node (pos i) i p'
      → Inv m (update pc i p')
  restate p' same w loc = record {
    first = first;
    last = last;
    at = at;
    pos = pos;
    node = node;
    order = order;
    tail_is = tail_is;
    placed = λ j h. ground (arith, placed j);
    filled = λ k lo hi. ground (arith, filled k lo hi);
    behind = λ j h ne. ground (arith, behind j, w);
    free = free;
    busy = busy;
    apart = apart;
    fresh = λ j k h. ground (arith, fresh j k);
    own = λ j k h h' ne. ground (arith, own j k);
    locals = λ j. ground (arith, locals j, loc);
  }

  -- A thread outside marks its node.
  pub mark_own :
      queued (pc i) ≡ false
      → Inv (record m { spin = update m.spin (m.current i) locked }) (update pc i (polling swap))
  mark_own out = record {
    first = first;
    last = last;
    at = at;
    pos = pos;
    node = node;
    order = order;
    tail_is = tail_is;
    placed = λ j h. ground (arith, placed j);
    filled = λ k lo hi. ground (arith, filled k lo hi);
    behind = λ j h ne. ground (arith, behind j);
    free = ground (arith, free, fresh i first, order);
    busy = λ k lo hi. ground (arith, busy k, fresh i k);
    apart = apart;
    fresh = λ j k h. ground (arith, fresh j k);
    own = λ j k h h' ne. ground (arith, own j k);
    locals = λ j. ground (arith, locals j);
  }

  -- The exchange puts it behind the tail.
  pub enter :
      pc i ≡ polling swap
      → Inv (record m { tail = m.current i }) (update pc i (polling (wait m.tail)))
  enter e = record {
    first = first;
    last = suc last;
    at = update at last i;
    pos = update pos i last;
    node = update node (suc last) (m.current i);
    order = omega (arith, order);
    tail_is = ground arith;
    placed = λ j h. ground (arith, placed j, order);
    filled = λ k lo hi. ground (arith, filled k lo);
    behind = λ j h ne. ground (arith, behind j);
    free = ground (arith, free, order);
    busy = λ k lo hi. ground (arith, busy k, locals i);
    apart = λ j k lo lt hi. ground (arith, apart j k, fresh i j, fresh i k);
    fresh = λ j k h lo hi. ground (arith, fresh j k, own j i);
    own = λ j k h h' ne. ground (arith, own j k);
    locals = λ j. ground (arith, locals j, tail_is, placed j, behind j);
  }

  -- A thread whose wait is over makes its node the head.
  pub store_head :
      (p : ℕ)
      → pc i ≡ polling (set_head p)
      → Inv (record m { head = some (m.current i) }) (update pc i (polling (adopt p)))
  store_head p e = record {
    first = first;
    last = last;
    at = at;
    pos = pos;
    node = node;
    order = order;
    tail_is = tail_is;
    placed = λ j h. ground (arith, placed j);
    filled = λ k lo hi. ground (arith, filled k lo hi);
    behind = λ j h ne. ground (arith, behind j, behind i);
    free = free;
    busy = busy;
    apart = apart;
    fresh = λ j k h. ground (arith, fresh j k);
    own = λ j k h h' ne. ground (arith, own j k);
    locals = λ j. ground (arith, locals j, locals i, behind i, behind j, placed i, placed j);
  }

  -- It takes the node that it waited on.
  pub take_node :
      (p : ℕ)
      → pc i ≡ polling (adopt p)
      → Inv (record m { current = update m.current i p }) (update pc i held)
  take_node p e = record {
    first = first;
    last = last;
    at = at;
    pos = pos;
    node = node;
    order = order;
    tail_is = tail_is;
    placed = λ j h. ground (arith, placed j);
    filled = λ k lo hi. ground (arith, filled k lo hi);
    behind = λ j h ne. ground (arith, behind j, behind i);
    free = free;
    busy = busy;
    apart = apart;
    fresh = λ j k h. ground (arith, fresh j k);
    own = λ j k h h' ne. ground (arith, own j k);
    locals = λ j. ground (arith, locals j, locals i);
  }

  -- The holder frees the node behind which its successor waits.
  pub hand_over :
      (n : ℕ)
      → pc i ≡ leaving (wake n)
      → Inv (record m { spin = update m.spin n unlocked }) (update pc i idle)
  hand_over n e = record {
    first = suc first;
    last = last;
    at = at;
    pos = pos;
    node = node;
    order = omega (arith, first_is);
    tail_is = tail_is;
    placed = λ j h. ground (arith, placed j, first_is);
    filled = λ k lo hi. ground (arith, filled k, first_is, placed i);
    behind = λ j h ne. ground (arith, behind j, placed j, first_is);
    free = ground (arith, first_is);
    busy = λ k lo hi. ground (arith, busy k, apart (suc first) k, first_is);
    apart = λ j k lo lt hi. apart j k (omega arith) lt hi;
    fresh = λ j k h lo hi. ground (arith, fresh j k, apart first k, first_is);
    own = λ j k h h' ne. ground (arith, own j k, fresh j first, fresh k first, first_is);
    locals = λ j. ground (arith, locals j, fresh j (suc first), first_is);
  }
    where
      first_is :
          (pos i ≡ first)
          × (at first ≡ i)
          × (first < last)
          × (m.current i ≡ node first)
          × (n ≡ node (suc first))
      first_is = ground (arith, behind i, placed i, locals i)
