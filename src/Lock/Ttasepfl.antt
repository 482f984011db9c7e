-- ===== src/Lock/Ttasepfl.antt =====
-- litl2/src/ttasepfl.c: test, then test-and-set, with a pause of a random length below a limit that
-- each thread doubles (`limit` of its context). The random numbers are `my_random` of
-- litl2/src/utils.h. `cdelay` waits for the clock and is one step.
use dal.Prelude.{
  ℕ, ◌*◌, ◌/◌, ◌%◌, ◌^◌, ◌≤◌, ◌<◌, ◌≡◌, refl, true, false, Option, none, arith, update, bit_xor,
  ◌==◌, ltb, if◌then◌else◌, Bool-cases, inl, inr, ==_iff,
}
use native.Mathlib.Nat.{mod-lt}
use dal.Lock.Raw.{
  RawLock, Raw, Outcome, pending, acquired, busy, idle, polling, held, leaving, settle,
  settle_leave,
}
use dal.Lock.Word.{
  unlocked, inside, WordInv, outside_step, grab, inside_step, give_back, WordInv-created,
}
use dal.Lock.Ttas.{tas_value}

-- litl2/include/ttasepfl.h
abbrev pub max_delay : ℕ
max_delay = 1000

-- The seeds of a thread, `unsigned long`.
pub record Seeds : Type 0 where
  pub x : ℕ
  pub y : ℕ
  pub z : ℕ

-- (*x) ^= (*x) << 16; (*x) ^= (*x) >> 5; (*x) ^= (*x) << 1;
abbrev pub left_16 : ℕ → ℕ
left_16 x = bit_xor x (x * 2 ^ 16 % 2 ^ 64)

abbrev pub right_5 : ℕ → ℕ
right_5 x = bit_xor x (x / 2 ^ 5)

abbrev pub left_1 : ℕ → ℕ
left_1 x = bit_xor x (x * 2 % 2 ^ 64)

unfoldable pub xorshf96 : Seeds → Seeds
xorshf96 s = record {
  x = s.y;
  y = s.z;
  z = bit_xor (bit_xor (left_1 (right_5 (left_16 s.x))) s.y) s.z;
}

pub record Mem : Type 0 where
  pub word : ℕ
  pub limit : ℕ → ℕ  -- uint32_t, one for each thread
  pub seeds : ℕ → Seeds

pub data Poll : Type 0 where
  watch : Poll  -- the inner `while` of `ttasepfl_mutex_lock`
  tas : Poll
  pause : (delay : ℕ) → Poll
  tas_once : Poll  -- the `if` of `ttasepfl_mutex_trylock`

pub data Leave : Type 0 where
  store : Leave

-- me->limit = MAX_DELAY > 2 * (me->limit) ? 2 * (me->limit) : MAX_DELAY;
abbrev pub raised : ℕ → ℕ
raised limit = if ltb (2 * limit % 2 ^ 32) max_delay then 2 * limit % 2 ^ 32 else max_delay

-- The `else` of the test-and-set: the delay is taken below the limit, and the limit raised.
abbrev pub backed_off : ℕ → Mem → Mem
backed_off i m = record m {
  word = tas_value;
  limit = update m.limit i (raised (m.limit i));
  seeds = update m.seeds i (xorshf96 (m.seeds i));
}

unfoldable pub poll : ℕ → Mem → Poll → Mem × Outcome Poll
unfolding xorshf96
poll i m watch = (m, pending (if m.word == unlocked then tas else watch))
poll i m tas =
    if m.word == unlocked
    then (record m { word = tas_value }, acquired)
    else (backed_off i m, pending (pause ((xorshf96 (m.seeds i)).z % m.limit i)))
poll i m (pause delay) = (m, pending watch)
poll i m tas_once = (record m { word = tas_value }, if m.word == unlocked then acquired else busy)

unfoldable pub leave : ℕ → Mem → Leave → Mem × Option Leave
leave i m store = (record m { word = unlocked }, none)

-- `ttasepfl_mutex_create` and `ttasepfl_init_context`; the seeds come from the clock.
abbrev pub created : (ℕ → Seeds) → Mem
created seeds = record { word = unlocked; limit = λ i. 1; seeds = seeds }

abbrev pub Short : Raw Poll Leave → Type 0
Short (polling (pause d)) = d < max_delay
Short _ = Unit

pub record Inv (m : Mem) (pc : ℕ → Raw Poll Leave) : Type 0 where
  pub exclusion : WordInv m.word pc
  pub limits : (i : ℕ) → (1 ≤ m.limit i) × (m.limit i ≤ max_delay)
  pub delays : (i : ℕ) → Short (pc i)

module _ {m : Mem} {pc : ℕ → Raw Poll Leave} (i : ℕ) (v : Inv m pc) where
  open v use {exclusion, limits, delays}

  -- A step that leaves the limits alone.
  same_limits :
      (word : ℕ) (p : Raw Poll Leave)
      → Short p
      → WordInv word (update pc i p)
      → Inv (record m { word = word }) (update pc i p)
  same_limits word p s w = record {
    exclusion = w;
    limits = limits;
    delays = λ j. elim (Bool-cases (i == j)) [ inl e ↦ rw e s | inr e ↦ rw e (delays j) ];
  }

  pub wait_on : (p : Raw Poll Leave) → inside p ≡ false → Short p → Inv m (update pc i p)
  wait_on p out s = same_limits m.word p s (outside_step exclusion i m.word p out exclusion.taken)

  miss : (p : Raw Poll Leave) → inside p ≡ false → WordInv tas_value (update pc i p)
  miss p out = outside_step exclusion i tas_value p out (λ j h. omega arith)

  take_it : (m.word == unlocked) ≡ true → Inv (record m { word = tas_value }) (update pc i held)
  take_it free =
      same_limits tas_value held tt
        (grab exclusion i tas_value ((==_iff m.word unlocked).0 free) (omega arith))

  back_off :
      Inv (backed_off i m) (update pc i (polling (pause ((xorshf96 (m.seeds i)).z % m.limit i))))
  back_off = record {
    exclusion = miss (polling (pause ((xorshf96 (m.seeds i)).z % m.limit i))) refl;
    limits = λ j. ground (arith, limits i, limits j);
    delays = λ j. elim (Bool-cases (i == j)) [ inl e ↦ rw e short | inr e ↦ rw e (delays j) ];
  }
    where
      short : (xorshf96 (m.seeds i)).z % m.limit i < max_delay
      short = omega (arith, limits i, mod-lt (xorshf96 (m.seeds i)).z (limits i).0)

  pub Inv-poll : (q : Poll) → Inv (poll i m q).0 (update pc i (settle (poll i m q).1))
  unfolding poll
  Inv-poll watch = elim (Bool-cases (m.word == unlocked)) [
    | inl e ↦ rw e (wait_on (polling tas) refl tt)
    | inr e ↦ rw e (wait_on (polling watch) refl tt)
  ]
  Inv-poll tas = elim (Bool-cases (m.word == unlocked)) [
    | inl e ↦ rw e (take_it e)
    | inr e ↦ rw e back_off
  ]
  Inv-poll (pause d) = wait_on (polling watch) refl tt
  Inv-poll tas_once = elim (Bool-cases (m.word == unlocked)) [
    | inl e ↦ rw e (take_it e)
    | inr e ↦ rw e (same_limits tas_value idle tt (miss idle refl))
  ]

  pub Inv-unlock : pc i ≡ held → Inv m (update pc i (leaving store))
  Inv-unlock e = same_limits m.word (leaving store) tt (inside_step exclusion i _ (ground arith))

  pub Inv-leave :
      (r : Leave)
      → pc i ≡ leaving r
      → Inv (leave i m r).0 (update pc i (settle_leave (leave i m r).1))
  unfolding leave
  Inv-leave store e = same_limits unlocked idle tt (give_back exclusion i _ (ground arith))

module _ (seeds : ℕ → Seeds) where
  abbrev pub ttasepfl : RawLock
  ttasepfl = record {
    Mem = Mem;
    Poll = Poll;
    Leave = Leave;
    create = created seeds;
    lock_entry = watch;
    trylock_entry = tas_once;
    unlock_entry = store;
    poll = poll;
    leave = leave;
    Fits = λ n. Unit;
    Inv = λ n. Inv;
    inv_create = λ {n} f. record {
      exclusion = WordInv-created unlocked;
      limits = λ i. (omega arith, omega arith);
      delays = λ i. tt;
    };
    inv_lock = λ {n} {m} {pc} i v lt e. wait_on i v (polling watch) refl tt;
    inv_trylock = λ {n} {m} {pc} i v lt e. wait_on i v (polling tas_once) refl tt;
    inv_poll = λ {n} {m} {pc} i q v lt e. Inv-poll i v q;
    inv_unlock = λ {n} {m} {pc} i v lt e. Inv-unlock i v e;
    inv_leave = λ {n} {m} {pc} i r v lt e. Inv-leave i v r e;
    exclusive = λ {n} {m} {pc} i j v lti ltj hi hj. v.exclusion.unique i j (rw hi) (rw hj);
  }
