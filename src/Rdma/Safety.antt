-- ===== src/Rdma/Safety.antt =====
-- What the locks of the memory node guarantee, however the client threads interleave and wherever
-- RDMA operations fail.
use dal.Prelude.{
  ℕ, ◌+◌, ◌*◌, ◌%◌, ◌^◌, ◌≤◌, ◌<◌, ◌≡◌, ◌≢◌, ◌↔◌, refl, true, Option, none, some, List, All, ◌++◌,
  arith, ap, update, ◌==◌, Bool-cases, inl, inr, subst, ==_iff,
}
use dal.Interleave.{System, run, run_keeps, run_where, run-append}
use dal.Rdma.Nic.{Nic}
use dal.Rdma.Client.{
  max_array_size, Layout, rlock_addr, data_addr, has_data, Pc, idle, inside, exited, Choice,
  is_seen, Mem, step,
}
use dal.Rdma.Invariant.{holds, Local, Inv}
use dal.Rdma.Steps.{Inv-step}

-- The byte offset of lock `l` is not negative exactly while `l` modulo 8192 is below 4096: `int` holds it, and it grows by 512 KiB a lock.
pub has_data_iff : (l : ℕ) → (has_data l ≡ true) ↔ (l % 8192 < 4096)
unfolding has_data
has_data_iff l = ground arith

module _ (nic : Nic) (y : Layout) (r : nic.Remote) where
  open nic use {Remote, word, int_at}

  -- The memory node has zeroed locks and data, and no client thread has started.
  abbrev pub start : System (Mem Remote) Pc
  start = record {
    mem = record {
      remote = r;
      buffer = λ i k. 0;
      cas_result = λ i. 0;
      int_data = λ c l. none;
      made = λ l k. 0;
    };
    pc = λ i. idle;
  }

  abbrev pub reached : List (ℕ × Choice) → System (Mem Remote) Pc
  reached l = run (step nic y) l start

module _ (nic : Nic) (y : Layout) (r : nic.Remote) (fits : y.data_len ≤ max_array_size)
    (no_words : (a : ℕ) → nic.word r a ≡ 0) (no_ints : (a : ℕ) → nic.int_at r a ≡ 0)
    (events : List (ℕ × Choice)) (seen : All (λ e. is_seen e.1 ≡ true) events) where
  open nic use {Remote, word, int_at}

  abbrev state : System (Mem Remote) Pc
  state = reached nic y r events

  pub reached-Inv : Inv nic y state.mem state.pc
  reached-Inv =
      run_where (step nic y) (λ e. is_seen e.1 ≡ true) (Inv nic y)
        (λ i c m pc ok v. Inv-step nic y fits v i c (pc i) ok refl) events (start nic y r) seen
        (record {
          unique = λ i j l h k. cc;
          taken = λ i l h. cc;
          free = λ l z d k lt. no_ints _;
          locals = λ i. tt;
          unset = λ c l d. refl;
        })

  pub one_holder :
      (i j l : ℕ)
      → holds (state.pc i) ≡ some l
      → holds (state.pc j) ≡ some l
      → (i ≡ j) × (word state.mem.remote (rlock_addr y l) ≢ 0)
  one_holder i j l hi hj = (reached-Inv.unique i j l hi hj, reached-Inv.taken i l hi)

  -- From a zeroed memory node with blocks of at most MAX_ARRAY_SIZE bytes, where no completion has the status IBV_WC_LOC_LEN_ERR: while a client thread has taken a lock, up to the write that clears it, no other client thread has taken it, and the word of the lock is not 0.
  pub remote_exclusion :
      (i j l : ℕ)
      → i ≢ j
      → holds (state.pc i) ≡ some l
      → (holds (state.pc j) ≢ some l) × (word state.mem.remote (rlock_addr y l) ≢ 0)
  remote_exclusion i j l differ hi =
      (λ hj. differ (one_holder i j l hi hj).0, (one_holder i i l hi hi).1)

  -- From a zeroed memory node with blocks of at most MAX_ARRAY_SIZE bytes, where no completion has the status IBV_WC_LOC_LEN_ERR, no update is lost: while the word of a lock with a data block is 0, each integer of its block on the memory node is the number of increments made under the lock, modulo 2 ^ 32.
  pub no_lost_update :
      (l k : ℕ)
      → l % 8192 < 4096
      → 4 * k < y.data_len
      → word state.mem.remote (rlock_addr y l) ≡ 0
      → int_at state.mem.remote (data_addr y l + 4 * k) ≡ state.mem.made l k % 2 ^ 32
  no_lost_update l k low lt z = reached-Inv.free l z ((has_data_iff l).1 low) k lt

  -- From a zeroed memory node with blocks of at most MAX_ARRAY_SIZE bytes, where no completion has the status IBV_WC_LOC_LEN_ERR, a thread inside a lock with a data block works on its own buffer, and finds every increment made under the lock in it.
  pub inside_sees_all :
      (i l tries k : ℕ)
      → l % 8192 < 4096
      → 4 * k < y.data_len
      → state.pc i ≡ inside l tries
      → (state.mem.int_data (y.client_of i) l ≡ some i)
        × (state.mem.buffer i k ≡ state.mem.made l k % 2 ^ 32)
  inside_sees_all i l tries k low lt e = let h = loaded e in (h.0, h.1 k lt)
    where
      loaded :
          state.pc i ≡ inside l tries
          → (state.mem.int_data (y.client_of i) l ≡ some i)
            × ((n : ℕ) → 4 * n < y.data_len → state.mem.buffer i n ≡ state.mem.made l n % 2 ^ 32)
      loaded at_inside =
          subst (Local nic y state.mem i) at_inside (reached-Inv.locals i) ((has_data_iff l).1 low)

-- A thread that has exited never moves again.
exited_stays :
    (nic : Nic) (y : Layout) (h : Option ℕ) (i j : ℕ) (c : Choice) (m : Mem nic.Remote)
    (pc : ℕ → Pc)
    → pc i ≡ exited h
    → update pc j (step nic y j c m (pc j)).1 i ≡ exited h
unfolding step
exited_stays nic y h i j c m pc e = elim (Bool-cases (j == i)) [
  | inl same ↦ rw (same, (==_iff j i).0 same, e)
  | inr apart ↦ rw apart e
]

-- From a zeroed memory node with blocks of at most MAX_ARRAY_SIZE bytes, where no completion has the status IBV_WC_LOC_LEN_ERR, a client thread that exits between the compare-and-swap and the write that clears the lock leaves the lock taken: in every later state its word is not 0 and no other thread holds it.
pub orphaned_lock :
    (nic : Nic) (y : Layout) (r : nic.Remote)
    → y.data_len ≤ max_array_size
    → ((a : ℕ) → nic.word r a ≡ 0)
    → ((a : ℕ) → nic.int_at r a ≡ 0)
    → (events later : List (ℕ × Choice)) (i j l : ℕ)
    → All (λ e. is_seen e.1 ≡ true) (events ++ later)
    → (reached nic y r events).pc i ≡ exited (some l)
    → j ≢ i
    → (nic.word (reached nic y r (events ++ later)).mem.remote (rlock_addr y l) ≢ 0)
      × (holds ((reached nic y r (events ++ later)).pc j) ≢ some l)
orphaned_lock nic y r fits no_words no_ints events later i j l seen e differ =
    ((excl i i held held).1, λ h. differ (excl j i h held).0)
  where
    still : (reached nic y r (events ++ later)).pc i ≡ exited (some l)
    still = rw (run-append (step nic y) events later (start nic y r)) (
        run_keeps (step nic y) (λ m pc. pc i ≡ exited (some l)) (exited_stays nic y (some l) i)
          later (reached nic y r events) e)

    held : holds ((reached nic y r (events ++ later)).pc i) ≡ some l
    held = ap holds still

    excl :
        (a b : ℕ)
        → holds ((reached nic y r (events ++ later)).pc a) ≡ some l
        → holds ((reached nic y r (events ++ later)).pc b) ≡ some l
        → (a ≡ b) × (nic.word (reached nic y r (events ++ later)).mem.remote (rlock_addr y l) ≢ 0)
    excl a b = one_holder nic y r fits no_words no_ints (events ++ later) seen a b l
