-- ===== src/Lock/Spinlockepfl.antt =====
-- litl2/src/spinlockepfl.c: a spin lock by test-and-set, whose free word is 0 (the file has its own
-- UNLOCKED and LOCKED).
use dal.Prelude.{
  ℕ, ◌≡◌, refl, false, Option, none, arith, update, Bool-cases, inl, inr, ◌==◌, if◌then◌else◌,
}
use dal.Lock.Raw.{
  RawLock, Raw, Outcome, pending, acquired, busy, idle, polling, held, leaving, settle,
  settle_leave,
}
use dal.Lock.Word.{
  locked, unlocked, inside, WordInv, outside_step, grab, inside_step, give_back, WordInv-created,
}
use dal.Lock.Ttas.{tas_value}

abbrev pub free_word : ℕ
free_word = 0

pub data Poll : Type 0 where
  tas : Poll  -- the test of the `while`
  tas_once : Poll  -- the `if` of `spinlockepfl_mutex_trylock`

pub data Leave : Type 0 where
  store : Leave

unfoldable pub poll : ℕ → ℕ → Poll → ℕ × Outcome Poll
poll i word tas = (tas_value, if word == free_word then acquired else pending tas)
poll i word tas_once = (tas_value, if word == free_word then acquired else busy)

unfoldable pub leave : ℕ → ℕ → Leave → ℕ × Option Leave
leave i word store = (free_word, none)

-- The word with the values of the other locks.
abbrev pub view : ℕ → ℕ
view word = if word == free_word then unlocked else locked

module _ (word : ℕ) {pc : ℕ → Raw Poll Leave} (i : ℕ) (v : WordInv (view word) pc) where
  pub try_on : (p : Raw Poll Leave) → inside p ≡ false → WordInv (view word) (update pc i p)
  try_on p out = outside_step v i (view word) p out v.taken

  -- An exchange with 0xff takes a free word and leaves a taken one taken.
  exchange :
      (p : Raw Poll Leave)
      → inside p ≡ false
      → WordInv (view tas_value) (update pc i (if word == free_word then held else p))
  exchange p out = elim (Bool-cases (word == free_word)) [
    | inl free ↦ rw free (grab v i (view tas_value) (rw free refl) (omega arith))
    | inr used ↦ rw used (outside_step v i (view tas_value) p out (λ j h. omega arith))
  ]

  pub WordInv-poll :
      (q : Poll) → WordInv (view (poll i word q).0) (update pc i (settle (poll i word q).1))
  unfolding poll
  WordInv-poll tas = elim (Bool-cases (word == free_word)) [
    | inl e ↦ rw e (rw e at (exchange (polling tas) refl))
    | inr e ↦ rw e (rw e at (exchange (polling tas) refl))
  ]
  WordInv-poll tas_once = elim (Bool-cases (word == free_word)) [
    | inl e ↦ rw e (rw e at (exchange idle refl))
    | inr e ↦ rw e (rw e at (exchange idle refl))
  ]

  pub WordInv-unlock : pc i ≡ held → WordInv (view word) (update pc i (leaving store))
  WordInv-unlock e = inside_step v i _ (ground arith)

  pub WordInv-leave :
      (r : Leave)
      → pc i ≡ leaving r
      → WordInv (view (leave i word r).0) (update pc i (settle_leave (leave i word r).1))
  unfolding leave
  WordInv-leave store e = give_back v i _ (ground arith)

abbrev pub spinlockepfl : RawLock
spinlockepfl = record {
  Mem = ℕ;
  Poll = Poll;
  Leave = Leave;
  create = free_word;
  lock_entry = tas;
  trylock_entry = tas_once;
  unlock_entry = store;
  poll = poll;
  leave = leave;
  Fits = λ n. Unit;
  Inv = λ n word. WordInv (view word);
  inv_create = λ {n} f. WordInv-created unlocked;
  inv_lock = λ {n} {m} {pc} i v lt e. try_on m i v (polling tas) refl;
  inv_trylock = λ {n} {m} {pc} i v lt e. try_on m i v (polling tas_once) refl;
  inv_poll = λ {n} {m} {pc} i q v lt e. WordInv-poll m i v q;
  inv_unlock = λ {n} {m} {pc} i v lt e. WordInv-unlock m i v e;
  inv_leave = λ {n} {m} {pc} i r v lt e. WordInv-leave m i v r e;
  exclusive = λ {n} {m} {pc} i j v lti ltj hi hj. v.unique i j (rw hi) (rw hj);
}
