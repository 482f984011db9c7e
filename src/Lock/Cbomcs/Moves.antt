-- ===== src/Lock/Cbomcs/Moves.antt =====
-- What each kind of step does to the upper lock of the cohort lock cbomcs.c, and to the locks below.
use dal.Prelude.{
  ℕ, ◌≡◌, ◌≢◌, refl, Bool, true, false, Option, some, update, ◌==◌, Bool-cases, inl, inr, arith,
  ==_iff, sym, subst,
}
use dal.Lock.Raw.{Raw, idle, polling, held, leaving}
use dal.Lock.Word.{unlocked}
use dal.Lock.Cohort.{side, side-update, side-other}
use dal.Lock.Mcs
use dal.Lock.Mcs.{Nodes}
use dal.Lock.Mcs.Queue
use dal.Lock.Cbomcs.{
  Cohort, Poll, clear, set_home, Leave, read_home, test_tail, count, set_grant, pass_local, reset,
  store_top,
}
use dal.Lock.Cbomcs.Places.{local_place, owns, at_home, clears, AtOwn, Top, Inv}

pub at_home-owns : (p : Raw Poll Leave) → at_home p ≡ true → owns p ≡ true
at_home-owns held h = refl
at_home-owns (leaving (pass_local k r)) h = absurd (ground arith)
at_home-owns (leaving read_home) h = refl
at_home-owns (leaving (test_tail k)) h = refl
at_home-owns (leaving (count k)) h = refl
at_home-owns (leaving (set_grant k)) h = refl
at_home-owns (leaving (reset k)) h = refl
at_home-owns p h = absurd (ground arith)

module _ {node : ℕ → ℕ} {grant : ℕ → Bool} {word : ℕ} {home : Option ℕ} {pc : ℕ → Raw Poll Leave}
    (v : Top node grant word home pc) (i : ℕ) where
  open v use {taken, flagged, one, apart, homes, cleared, own}

  all_own : (p' : Raw Poll Leave) → AtOwn (node i) p' → (j : ℕ) → AtOwn (node j) (update pc i p' j)
  all_own p' a j = elim (Bool-cases (i == j)) [
    | inl e ↦ rw e (subst (λ j. AtOwn (node j) p') ((==_iff i j).0 e) a)
    | inr e ↦ rw e (own j)
  ]

  -- A step that changes nothing of the upper lock.
  pub quiet :
      (p' : Raw Poll Leave)
      → (owns p' ≡ true → owns (pc i) ≡ true)
      → (at_home p' ≡ true → home ≡ some (node i))
      → (clears p' ≡ true → grant (node i) ≡ true)
      → AtOwn (node i) p'
      → Top node grant word home (update pc i p')
  quiet p' o h c a = record {
    taken = λ j e. taken j (owned j e);
    flagged = flagged;
    one = λ j k ej ek. one j k (owned j ej) (owned k ek);
    apart = λ j k e. apart j k (owned j e);
    homes = λ j e. ground (arith, homes j);
    cleared = λ j e. ground (arith, cleared j);
    own = all_own p' a;
  }
    where
      owned : (j : ℕ) → owns (update pc i p' j) ≡ true → owns (pc j) ≡ true
      owned j e = ground arith

  -- A thread takes the free word.
  pub take :
      (word' : ℕ)
      → word ≡ unlocked
      → word' ≢ unlocked
      → Top node grant word' home (update pc i (polling set_home))
  take word' free busy = record {
    taken = λ j e. busy;
    flagged = λ k e. absurd ((flagged k e).0 free);
    one = λ j k ej ek. ground (arith, taken j, taken k);
    apart = λ j k e. ground (arith, flagged k);
    homes = λ j e. ground (arith, homes j);
    cleared = λ j e. ground (arith, cleared j);
    own = all_own (polling set_home) tt;
  }

  -- A thread that does not have the word writes it, but leaves it taken if it was.
  pub write_word :
      (word' : ℕ) (p' : Raw Poll Leave)
      → (word ≢ unlocked → word' ≢ unlocked)
      → owns p' ≡ false
      → at_home p' ≡ false
      → clears p' ≡ false
      → AtOwn (node i) p'
      → Top node grant word' home (update pc i p')
  write_word word' p' keeps o h c a = record {
    taken = λ j e. ground (arith, taken j);
    flagged = λ k e. (keeps (flagged k e).0, (flagged k e).1);
    one = λ j k ej ek. ground (arith, one j k);
    apart = λ j k e. ground (arith, apart j k);
    homes = λ j e. ground (arith, homes j);
    cleared = λ j e. ground (arith, cleared j);
    own = all_own p' a;
  }

  pub come_home : pc i ≡ polling set_home → Top node grant word (some (node i)) (update pc i held)
  come_home e = record {
    taken = λ j h. ground (arith, taken i, taken j);
    flagged = λ k h. ground (arith, apart i k);
    one = λ j k ej ek. ground (arith, one j k, one i j, one i k);
    apart = λ j k h. ground (arith, apart i k, apart j k);
    homes = λ j h. ground (arith, at_home-owns (pc j), one i j);
    cleared = λ j h. ground (arith, cleared j, apart i (node j));
    own = all_own held tt;
  }

  -- A thread takes the flag of its node, which nobody else of the node is about to clear.
  pub clear_flag :
      pc i ≡ polling clear
      → ((j : ℕ) → i ≢ j → node j ≡ node i → clears (pc j) ≡ false)
      → Top node (update grant (node i) false) word home (update pc i held)
  clear_flag e alone = record {
    taken = λ j h. ground (arith, flagged (node i), cleared i, taken j);
    flagged = λ k h. ground (arith, flagged k);
    one = λ j k ej ek. ground (arith, one j k, apart j (node i), apart k (node i), cleared i);
    apart = λ j k h. ground (arith, flagged k, flagged (node i), cleared i, apart j k);
    homes = λ j h. ground (arith, homes j, flagged (node i), cleared i);
    cleared = λ j h. ground (arith, cleared j, alone j);
    own = all_own held tt;
  }

  -- The holder sets the flag of its node.
  pub set_flag :
      pc i ≡ leaving (set_grant (node i))
      → Top node
          (update grant (node i) true)
          word
          home
          (update pc i (leaving (pass_local (node i) Mcs.read_next)))
  set_flag e = record {
    taken = λ j h. ground (arith, taken j);
    flagged = λ k h. ground (arith, apart i k, taken i, homes i);
    one = λ j k ej ek. ground (arith, one j k);
    apart = λ j k h. ground (arith, one i j);
    homes = λ j h. ground (arith, homes j);
    cleared = λ j h. ground (arith, cleared j);
    own = all_own (leaving (pass_local (node i) Mcs.read_next)) refl;
  }

  -- The holder gives the word back.
  pub free_word : pc i ≡ leaving store_top → Top node grant unlocked home (update pc i idle)
  free_word e = record {
    taken = λ j h. ground (arith, one i j);
    flagged = λ k h. ground (arith, apart i k);
    one = λ j k ej ek. ground (arith, one j k);
    apart = λ j k h. ground (arith, apart j k);
    homes = λ j h. ground (arith, homes j);
    cleared = λ j h. ground (arith, cleared j);
    own = all_own idle tt;
  }

module _ {node : ℕ → ℕ} {m : Cohort} {pc : ℕ → Raw Poll Leave} (v : Inv node m pc) (i : ℕ) where
  -- A step in the lock of the node.
  pub locally :
      (k : ℕ) (c : Nodes) (p' : Raw Poll Leave)
      → k ≡ node i
      → Queue.Inv c (update (side local_place node (node i) pc) i (local_place p'))
      → (j : ℕ) → Queue.Inv (update m.local_locks k c j) (side local_place node j (update pc i p'))
  locally k c p' at loc j = elim (Bool-cases (node i == j)) [
    | inl e ↦
        let same : node i ≡ j = (==_iff (node i) j).0 e in
        rw (at, e)
          (subst (λ j. Queue.Inv c (side local_place node j (update pc i p'))) same
            (subst (Queue.Inv c) (sym (side-update local_place node pc i p')) loc))
    | inr e ↦
        rw (at, e)
          (subst (Queue.Inv (m.local_locks j)) (sym (side-other local_place node pc i j p' e))
            (v.below j))
  ]
