-- ===== src/Lock/Spinlock.antt =====
-- litl2/src/spinlock.c: a compare-and-swap on one word.
use dal.Prelude.{
  ℕ, ◌≡◌, ◌⊎◌, refl, false, Option, none, arith, update, ◌==◌, if◌then◌else◌, inl, inr,
}
use dal.Lock.Raw.{
  RawLock, Raw, Outcome, pending, acquired, busy, idle, polling, held, leaving, settle,
  settle_leave,
}
use dal.Lock.Word.{
  locked, unlocked, inside, WordInv, outside_step, grab, inside_step, give_back, WordInv-created,
}

pub data Poll : Type 0 where
  cas_loop : Poll  -- the `while` of `spinlock_mutex_lock`
  cas_once : Poll  -- the test of `spinlock_mutex_trylock`

pub data Leave : Type 0 where
  cas_back : Leave

-- __sync_val_compare_and_swap(word, old, new): the word afterwards; it returns the word before.
abbrev pub swapped : ℕ → ℕ → ℕ → ℕ
swapped word old new = if word == old then new else word

unfoldable pub poll : ℕ → ℕ → Poll → ℕ × Outcome Poll
poll i word cas_loop =
    (swapped word unlocked locked, if word == locked then pending cas_loop else acquired)
poll i word cas_once = (swapped word unlocked locked, if word == unlocked then acquired else busy)

unfoldable pub leave : ℕ → ℕ → Leave → ℕ × Option Leave
leave i word cas_back = (swapped word locked unlocked, none)

pub record Inv (word : ℕ) (pc : ℕ → Raw Poll Leave) : Type 0 where
  pub exclusion : WordInv word pc
  pub values : (word ≡ locked) ⊎ (word ≡ unlocked)

module _ {word : ℕ} {pc : ℕ → Raw Poll Leave} (i : ℕ) where
  -- A round that leaves the word as it is and the thread outside.
  pub wait_on : (p : Raw Poll Leave) → inside p ≡ false → Inv word pc → Inv word (update pc i p)
  wait_on p out v = record {
    exclusion = outside_step v.exclusion i word p out v.exclusion.taken;
    values = v.values;
  }

  take_it : word ≡ unlocked → Inv word pc → Inv locked (update pc i held)
  take_it free v = record {
    exclusion = grab v.exclusion i locked free (omega arith);
    values = inl refl;
  }

  pub Inv-unlock : Inv word pc → pc i ≡ held → Inv word (update pc i (leaving cas_back))
  Inv-unlock v e = record {
    exclusion = inside_step v.exclusion i _ (ground arith);
    values = v.values;
  }

  pub Inv-poll :
      (q : Poll)
      → Inv word pc
      → pc i ≡ polling q
      → Inv (poll i word q).0 (update pc i (settle (poll i word q).1))
  unfolding poll
  Inv-poll cas_loop v e = elim v.values [
    | inl l ↦ rw l (rw l at (wait_on (polling cas_loop) refl v))
    | inr u ↦ rw u (take_it u v)
  ]
  Inv-poll cas_once v e = elim v.values [
    | inl l ↦ rw l (rw l at (wait_on idle refl v))
    | inr u ↦ rw u (take_it u v)
  ]

  -- `assert(old == 0)` in `__spinlock_mutex_unlock`.
  pub unlock_assert : (r : Leave) → Inv word pc → pc i ≡ leaving r → word ≡ locked
  unlock_assert r v e = ground (arith, v.exclusion.taken i)

  pub Inv-leave :
      (r : Leave)
      → Inv word pc
      → pc i ≡ leaving r
      → Inv (leave i word r).0 (update pc i (settle_leave (leave i word r).1))
  unfolding leave
  Inv-leave cas_back v e =
      rw (unlock_assert cas_back v e)
        (record { exclusion = give_back v.exclusion i _ (ground arith); values = inr refl })

abbrev pub spinlock : RawLock
spinlock = record {
  Mem = ℕ;
  Poll = Poll;
  Leave = Leave;
  create = unlocked;
  lock_entry = cas_loop;
  trylock_entry = cas_once;
  unlock_entry = cas_back;
  poll = poll;
  leave = leave;
  Fits = λ n. Unit;
  Inv = λ n. Inv;
  inv_create = λ {n} f. record { exclusion = WordInv-created unlocked; values = inr refl };
  inv_lock = λ {n} {m} {pc} i v lt e. wait_on i (polling cas_loop) refl v;
  inv_trylock = λ {n} {m} {pc} i v lt e. wait_on i (polling cas_once) refl v;
  inv_poll = λ {n} {m} {pc} i q v lt e. Inv-poll i q v e;
  inv_unlock = λ {n} {m} {pc} i v lt e. Inv-unlock i v e;
  inv_leave = λ {n} {m} {pc} i r v lt e. Inv-leave i r v e;
  exclusive = λ {n} {m} {pc} i j v lti ltj hi hj. v.exclusion.unique i j (rw hi) (rw hj);
}
