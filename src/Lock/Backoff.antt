-- ===== src/Lock/Backoff.antt =====
-- litl2/src/backoff.c: test and test-and-set, with a pause between two tests that doubles up to a
-- bound. The pauses are counted as in the code (`unsigned int`: no overflow below 2 ^ 32).
use dal.Prelude.{
  ℕ, zero, suc, ◌+◌, ◌-◌, ◌*◌, ◌%◌, ◌^◌, ◌≤◌, ◌≡◌, refl, false, Option, none, arith, update, subst,
  ◌==◌, ltb, if◌then◌else◌, Bool-cases, inl, inr, ==_iff, dec_lt,
}
use dal.Lock.Raw.{
  RawLock, Raw, Outcome, pending, acquired, busy, idle, polling, held, leaving, settle,
  settle_leave,
}
use dal.Lock.Word.{
  unlocked, inside, WordInv, outside_step, grab, inside_step, give_back, WordInv-created,
}
use dal.Lock.Ttas.{tas_value}

-- litl2/include/backoff.h
abbrev pub default_backoff_delay : ℕ
default_backoff_delay = 2 ^ 9

abbrev pub max_backoff_delay : ℕ
max_backoff_delay = 2 ^ 20 - 1

pub data Poll : Type 0 where
  watch : (delay : ℕ) → Poll  -- the test of the inner `while`
  pause : (delay left : ℕ) → Poll  -- the `for` over CPU_PAUSE
  tas : (delay : ℕ) → Poll  -- the `if`
  tas_once : Poll  -- the `if` of `backoff_mutex_trylock`

pub data Leave : Type 0 where
  store : Leave

-- if (delay < MAX_BACKOFF_DELAY) delay *= 2;
unfoldable pub longer : ℕ → ℕ
longer delay = if ltb delay max_backoff_delay then delay * 2 % 2 ^ 32 else delay

unfoldable pub poll : ℕ → ℕ → Poll → ℕ × Outcome Poll
poll i word (watch delay) =
    (word, pending (if word == unlocked then tas delay else pause delay delay))
poll i word (pause delay zero) = (word, pending (watch (longer delay)))
poll i word (pause delay (suc left)) = (word, pending (pause delay left))
poll i word (tas delay) = (tas_value, if word == unlocked then acquired else pending (watch delay))
poll i word tas_once = (tas_value, if word == unlocked then acquired else busy)

unfoldable pub leave : ℕ → ℕ → Leave → ℕ × Option Leave
leave i word store = (unlocked, none)

-- The delays: the first one, doubled.
unfoldable pub delay_at : ℕ → ℕ
delay_at zero = default_backoff_delay
delay_at (suc k) = delay_at k * 2

-- The delay of a thread that polls is one of the first twelve.
abbrev pub InRange : ℕ → Type 0
InRange d = (k : ℕ) × (k ≤ 11) × (d ≡ delay_at k)

abbrev pub Bounded : Raw Poll Leave → Type 0
Bounded (polling (watch d)) = InRange d
Bounded (polling (pause d left)) = InRange d × (left ≤ d)
Bounded (polling (tas d)) = InRange d
Bounded _ = Unit

pub record Inv (word : ℕ) (pc : ℕ → Raw Poll Leave) : Type 0 where
  pub exclusion : WordInv word pc
  pub delays : (i : ℕ) → Bounded (pc i)

delay_at_mono : (k m : ℕ) → k ≤ m → delay_at k ≤ delay_at m
unfolding delay_at
delay_at_mono k zero h = let e : k ≡ 0 = omega arith in rw e (omega arith)
delay_at_mono k (suc m) h = elim (dec_lt m k) [
  | yes same ↦ let e : k ≡ suc m = omega arith in rw e (omega arith)
  | no below ↦ omega (arith, delay_at_mono k m (omega arith))
]

longer-InRange : (d : ℕ) → InRange d → InRange (longer d)
unfolding longer delay_at
longer-InRange d (k, le, e) = elim (dec_lt k 11) [
  | yes more ↦ (suc k, omega arith, ground (arith, delay_at_mono k 10))
  | no last ↦ (11, omega arith, ground (arith, delay_at_mono 11 k))
]

pub InRange-bound : (d : ℕ) → InRange d → d ≤ max_backoff_delay + 1
unfolding delay_at
InRange-bound d (k, le, e) = omega (arith, e, delay_at_mono k 11 le)

Bounded-update :
    (pc : ℕ → Raw Poll Leave) (i : ℕ) (p : Raw Poll Leave)
    → ((j : ℕ) → Bounded (pc j))
    → Bounded p
    → (j : ℕ) → Bounded (update pc i p j)
Bounded-update pc i p all h j = elim (Bool-cases (i == j)) [ inl e ↦ rw e h | inr e ↦ rw e (all j) ]

module _ {word : ℕ} {pc : ℕ → Raw Poll Leave} (i : ℕ) (v : Inv word pc) where
  pub wait_on : (p : Raw Poll Leave) → inside p ≡ false → Bounded p → Inv word (update pc i p)
  wait_on p out b = record {
    exclusion = outside_step v.exclusion i word p out v.exclusion.taken;
    delays = Bounded-update pc i p v.delays b;
  }

  take_it : word ≡ unlocked → Inv tas_value (update pc i held)
  take_it free = record {
    exclusion = grab v.exclusion i tas_value free (omega arith);
    delays = Bounded-update pc i held v.delays tt;
  }

  miss_it : (p : Raw Poll Leave) → inside p ≡ false → Bounded p → Inv tas_value (update pc i p)
  miss_it p out b = record {
    exclusion = outside_step v.exclusion i tas_value p out (λ j h. omega arith);
    delays = Bounded-update pc i p v.delays b;
  }

  here : (q : Poll) → pc i ≡ polling q → Bounded (polling q)
  here q e = subst Bounded e (v.delays i)

  pub Inv-poll :
      (q : Poll) → pc i ≡ polling q → Inv (poll i word q).0 (update pc i (settle (poll i word q).1))
  unfolding poll
  Inv-poll (watch d) e = elim (Bool-cases (word == unlocked)) [
    | inl t ↦ rw t (wait_on (polling (tas d)) refl (here _ e))
    | inr t ↦ rw t (wait_on (polling (pause d d)) refl (let b = here _ e in (b, omega arith)))
  ]
  Inv-poll (pause d zero) e =
      wait_on (polling (watch (longer d))) refl (longer-InRange d (here _ e).0)
  Inv-poll (pause d (suc left)) e =
      wait_on (polling (pause d left)) refl (let b = here _ e in (b.0, omega arith))
  Inv-poll (tas d) e = elim (Bool-cases (word == unlocked)) [
    | inl t ↦ rw t (take_it ((==_iff word unlocked).0 t))
    | inr t ↦ rw t (miss_it (polling (watch d)) refl (here _ e))
  ]
  Inv-poll tas_once e = elim (Bool-cases (word == unlocked)) [
    | inl t ↦ rw t (take_it ((==_iff word unlocked).0 t))
    | inr t ↦ rw t (miss_it idle refl tt)
  ]

  pub Inv-unlock : pc i ≡ held → Inv word (update pc i (leaving store))
  Inv-unlock e = record {
    exclusion = inside_step v.exclusion i _ (ground arith);
    delays = Bounded-update pc i (leaving store) v.delays tt;
  }

  pub Inv-leave :
      (r : Leave)
      → pc i ≡ leaving r
      → Inv (leave i word r).0 (update pc i (settle_leave (leave i word r).1))
  unfolding leave
  Inv-leave store e = record {
    exclusion = give_back v.exclusion i _ (ground arith);
    delays = Bounded-update pc i idle v.delays tt;
  }

pub first_delay : Bounded (polling (watch default_backoff_delay))
unfolding delay_at
first_delay = (0, omega arith, refl)

abbrev pub backoff : RawLock
backoff = record {
  Mem = ℕ;
  Poll = Poll;
  Leave = Leave;
  create = unlocked;
  lock_entry = watch default_backoff_delay;
  trylock_entry = tas_once;
  unlock_entry = store;
  poll = poll;
  leave = leave;
  Fits = λ n. Unit;
  Inv = λ n. Inv;
  inv_create = λ {n} f. record { exclusion = WordInv-created unlocked; delays = λ i. tt };
  inv_lock =
      λ {n} {m} {pc} i v lt e. wait_on i v (polling (watch default_backoff_delay)) refl first_delay;
  inv_trylock = λ {n} {m} {pc} i v lt e. wait_on i v (polling tas_once) refl tt;
  inv_poll = λ {n} {m} {pc} i q v lt e. Inv-poll i v q e;
  inv_unlock = λ {n} {m} {pc} i v lt e. Inv-unlock i v e;
  inv_leave = λ {n} {m} {pc} i r v lt e. Inv-leave i v r e;
  exclusive = λ {n} {m} {pc} i j v lti ltj hi hj. v.exclusion.unique i j (rw hi) (rw hj);
}
