-- ===== src/Lock/Alockepfl.antt =====
-- litl2/src/alockepfl.c: an array of flags. A thread draws a slot and waits for its flag; the release
-- closes its own slot and opens the next one.
use dal.Prelude.{
  ℕ, ◌+◌, ◌%◌, ◌<◌, ◌≡◌, ◌≢◌, ◌↔◌, Option, none, some, update, ◌==◌, if◌then◌else◌, Bool-cases, inl,
  inr, arith, refl,
}
use dal.Lock.Raw.{alone, attempt, Outcome, pending, acquired, busy}
use dal.Lock.Word.{locked, unlocked}
use dal.Lock.Ticket.{u32}

-- litl2/include/alockepfl.h: MAX_THREADS_SUPPORTED
abbrev pub max_threads : ℕ
max_threads = 512

pub record Slots : Type 0 where
  pub tail : ℕ  -- uint32_t
  pub flags : ℕ → ℕ
  pub my_index : ℕ → ℕ  -- of each thread's context

-- `alockepfl_mutex_create` and `alockepfl_init_context`; `flags` is what the memory holds.
abbrev pub created : (ℕ → ℕ) → Slots
created flags = record { tail = 0; flags = update flags 0 unlocked; my_index = λ i. locked }

pub data Poll : Type 0 where
  draw : Poll  -- `__alockepfl_mutex_lock`
  watch : (slot : ℕ) → Poll
  read_tail : Poll  -- `alockepfl_mutex_trylock`
  test_flag : (tail : ℕ) → Poll
  try_cas : (tail : ℕ) → Poll

pub data Leave : Type 0 where
  close : Leave
  open_next : (slot : ℕ) → Leave

-- The thread has drawn the slot of `tail`.
abbrev pub drawn : ℕ → Slots → ℕ → Slots
drawn i m tail = record m {
  tail = u32 (tail + 1);
  my_index = update m.my_index i (tail % max_threads);
}

unfoldable pub poll : ℕ → Slots → Poll → Slots × Outcome Poll
poll i m draw = (drawn i m m.tail, pending (watch (m.tail % max_threads)))
poll i m (watch slot) = (m, if m.flags slot == locked then pending (watch slot) else acquired)
poll i m read_tail = (m, pending (test_flag m.tail))
poll i m (test_flag tail) =
    (m, if m.flags (tail % max_threads) == unlocked then pending (try_cas tail) else busy)
poll i m (try_cas tail) = if m.tail == tail then (drawn i m tail, acquired) else (m, busy)

unfoldable pub leave : ℕ → Slots → Leave → Slots × Option Leave
leave i m close =
    (record m { flags = update m.flags (m.my_index i) locked }, some (open_next (m.my_index i)))
leave i m (open_next slot) =
    (record m { flags = update m.flags ((slot + 1) % max_threads) unlocked }, none)

-- One slot lets a thread in.
pub record OneOpen (m : Slots) (s : ℕ) : Type 0 where
  pub opened : m.flags s ≡ unlocked
  pub closed : (k : ℕ) → k < max_threads → k ≢ s → m.flags k ≡ locked

let_in :
    {m : Slots} {s : ℕ} (j k : ℕ)
    → k < max_threads
    → OneOpen m s
    → ((poll j m (watch k)).1 ≡ acquired) ↔ (k ≡ s)
unfolding poll
let_in {m} {s} j k lt v = elim (Bool-cases (k == s)) [
  | inl e ↦ ground (arith, v.opened)
  | inr e ↦ ground (arith, v.closed k lt)
]

-- After the release of a thread in slot s.
abbrev pub left : ℕ → Slots → Slots
left i m = (alone leave i 2 m (some close)).0

-- A release, that no other thread interrupts, by a thread whose slot s is the one open slot leaves the next slot, modulo MAX_THREADS_SUPPORTED, as the one open slot, and a thread that waits, on a slot of the array, is let in exactly if it waits on that one.
pub left-OneOpen :
    (i j s k : ℕ) (m : Slots)
    → s < max_threads
    → k < max_threads
    → m.my_index i ≡ s
    → OneOpen m s
    → OneOpen (left i m) ((s + 1) % max_threads)
      × (((poll j (left i m) (watch k)).1 ≡ acquired) ↔ (k ≡ (s + 1) % max_threads))
unfolding poll leave alone
left-OneOpen i j s k m lt ltk at v = (after, let_in j k ltk after)
  where
    after : OneOpen (left i m) ((s + 1) % max_threads)
    after = record {
      opened = ground (arith, at);
      closed = λ k lt ne. ground (arith, at, v.closed k);
    }

-- A call of lock on a new lock, and a second one before the first thread has released it; neither waits for more than one look at its flag.
abbrev pub first_call : ℕ → (ℕ → ℕ) → Slots × Outcome Poll
first_call i flags = attempt poll i 2 (created flags) (pending draw)

abbrev pub second_call : ℕ → ℕ → (ℕ → ℕ) → Slots × Outcome Poll
second_call i j flags = attempt poll j 2 (first_call i flags).0 (pending draw)

-- The first thread that calls lock on a new lock is let in; a second one that calls lock before any release is let in as well exactly if the memory of the new lock held something else than LOCKED in the flag of slot 1.
pub both_let_in :
    (i j : ℕ) (flags : ℕ → ℕ)
    → ((first_call i flags).1 ≡ acquired)
      × (((second_call i j flags).1 ≡ acquired) ↔ (flags 1 ≢ locked))
unfolding poll attempt
both_let_in i j flags = (refl, (λ h. ground arith, λ h. ground arith))
