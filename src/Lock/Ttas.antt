-- ===== src/Lock/Ttas.antt =====
-- litl2/src/ttas.c: test, then test-and-set by an exchange with 0xff (`l_tas_uint8`, litl2/src/utils.h).
use dal.Prelude.{
  ℕ, ◌≡◌, refl, false, Option, none, arith, update, ◌==◌, if◌then◌else◌, Bool-cases, inl, inr,
  ==_iff,
}
use dal.Lock.Raw.{
  RawLock, Raw, Outcome, pending, acquired, busy, idle, polling, held, leaving, settle,
  settle_leave,
}
use dal.Lock.Word.{
  unlocked, inside, WordInv, outside_step, grab, inside_step, give_back, WordInv-created,
}

abbrev pub tas_value : ℕ
tas_value = 0xff

pub data Poll : Type 0 where
  watch : Poll  -- the inner `while` of `ttas_mutex_lock`
  tas : Poll  -- its `if`
  tas_once : Poll  -- the `if` of `ttas_mutex_trylock`

pub data Leave : Type 0 where
  store : Leave

unfoldable pub poll : ℕ → ℕ → Poll → ℕ × Outcome Poll
poll i word watch = (word, pending (if word == unlocked then tas else watch))
poll i word tas = (tas_value, if word == unlocked then acquired else pending watch)
poll i word tas_once = (tas_value, if word == unlocked then acquired else busy)

unfoldable pub leave : ℕ → ℕ → Leave → ℕ × Option Leave
leave i word store = (unlocked, none)

module _ {word : ℕ} {pc : ℕ → Raw Poll Leave} (i : ℕ) (v : WordInv word pc) where
  pub wait_on : (p : Raw Poll Leave) → inside p ≡ false → WordInv word (update pc i p)
  wait_on p out = outside_step v i word p out v.taken

  -- An exchange with 0xff takes a free word and leaves a taken one taken.
  exchange :
      (p : Raw Poll Leave)
      → inside p ≡ false
      → WordInv tas_value (update pc i (if word == unlocked then held else p))
  exchange p out = elim (Bool-cases (word == unlocked)) [
    | inl free ↦ rw free (grab v i tas_value ((==_iff word unlocked).0 free) (omega arith))
    | inr used ↦ rw used (outside_step v i tas_value p out (λ j h. omega arith))
  ]

  pub WordInv-poll : (q : Poll) → WordInv (poll i word q).0 (update pc i (settle (poll i word q).1))
  unfolding poll
  WordInv-poll watch = elim (Bool-cases (word == unlocked)) [
    | inl e ↦ rw e (wait_on (polling tas) refl)
    | inr e ↦ rw e (wait_on (polling watch) refl)
  ]
  WordInv-poll tas = elim (Bool-cases (word == unlocked)) [
    | inl e ↦ rw e (rw e at (exchange (polling watch) refl))
    | inr e ↦ rw e (rw e at (exchange (polling watch) refl))
  ]
  WordInv-poll tas_once = elim (Bool-cases (word == unlocked)) [
    | inl e ↦ rw e (rw e at (exchange idle refl))
    | inr e ↦ rw e (rw e at (exchange idle refl))
  ]

  pub WordInv-unlock : pc i ≡ held → WordInv word (update pc i (leaving store))
  WordInv-unlock e = inside_step v i _ (ground arith)

  pub WordInv-leave :
      (r : Leave)
      → pc i ≡ leaving r
      → WordInv (leave i word r).0 (update pc i (settle_leave (leave i word r).1))
  unfolding leave
  WordInv-leave store e = give_back v i _ (ground arith)

abbrev pub ttas : RawLock
ttas = record {
  Mem = ℕ;
  Poll = Poll;
  Leave = Leave;
  create = unlocked;
  lock_entry = watch;
  trylock_entry = tas_once;
  unlock_entry = store;
  poll = poll;
  leave = leave;
  Fits = λ n. Unit;
  Inv = λ n. WordInv;
  inv_create = λ {n} f. WordInv-created unlocked;
  inv_lock = λ {n} {m} {pc} i v lt e. wait_on i v (polling watch) refl;
  inv_trylock = λ {n} {m} {pc} i v lt e. wait_on i v (polling tas_once) refl;
  inv_poll = λ {n} {m} {pc} i q v lt e. WordInv-poll i v q;
  inv_unlock = λ {n} {m} {pc} i v lt e. WordInv-unlock i v e;
  inv_leave = λ {n} {m} {pc} i r v lt e. WordInv-leave i v r e;
  exclusive = λ {n} {m} {pc} i j v lti ltj hi hj. v.unique i j (rw hi) (rw hj);
}
