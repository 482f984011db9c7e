-- ===== src/Lock/Word.antt =====
-- Locks that are one word of memory (spinlock.c, ttas.c, backoff.c): a thread is inside from the
-- access that takes the word up to the one that gives it back.
use dal.Prelude.{ℕ, ◌≡◌, ◌≢◌, Bool, true, false, arith, update}
use dal.Lock.Raw.{Raw, idle, polling, held, leaving}

-- litl2/src/waiting_policy.h
abbrev pub locked : ℕ
locked = 0

abbrev pub unlocked : ℕ
unlocked = 1

abbrev pub inside : {Q R : Type 0} → Raw Q R → Bool
inside idle = false
inside (polling _) = false
inside held = true
inside (leaving _) = true

pub record WordInv {Q R : Type 0} (word : ℕ) (pc : ℕ → Raw Q R) : Type 0 where
  pub taken : (i : ℕ) → inside (pc i) ≡ true → word ≢ unlocked
  pub unique : (i j : ℕ) → inside (pc i) ≡ true → inside (pc j) ≡ true → i ≡ j

module _ {Q R : Type 0} {word : ℕ} {pc : ℕ → Raw Q R} (v : WordInv word pc) (i : ℕ) where
  open v use {taken, unique}

  -- A step outside leaves the word alone, or writes another value that is not free.
  pub outside_step :
      (word' : ℕ) (p' : Raw Q R)
      → inside p' ≡ false
      → ((j : ℕ) → inside (pc j) ≡ true → word' ≢ unlocked)
      → WordInv word' (update pc i p')
  outside_step word' p' out keep = record {
    taken = λ j h. ground (arith, keep j);
    unique = λ j k hj hk. ground (arith, unique j k);
  }

  -- A thread that finds the word free takes it.
  pub grab : (word' : ℕ) → word ≡ unlocked → word' ≢ unlocked → WordInv word' (update pc i held)
  grab word' free not_free = record {
    taken = λ j h. not_free;
    unique = λ j k hj hk. ground (arith, taken j, taken k);
  }

  pub inside_step : (p' : Raw Q R) → inside (pc i) ≡ true → WordInv word (update pc i p')
  inside_step p' h = record {
    taken = λ j hj. taken i h;
    unique = λ j k hj hk. ground (arith, unique i j, unique i k, unique j k);
  }

  -- The thread inside gives the word back.
  pub give_back : (word' : ℕ) → inside (pc i) ≡ true → WordInv word' (update pc i idle)
  give_back word' h = record {
    taken = λ j hj. ground (arith, unique i j);
    unique = λ j k hj hk. ground (arith, unique i j);
  }

pub WordInv-created : {Q R : Type 0} (word : ℕ) → WordInv {Q = Q} {R = R} word (λ _. idle)
WordInv-created word = record { taken = λ i h. cc; unique = λ i j h k. cc }
