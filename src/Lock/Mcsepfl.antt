-- ===== src/Lock/Mcsepfl.antt =====
-- litl2/src/mcsepfl.c: the MCS lock, where a thread marks its node only after it has found another
-- one in front of it.
pub mod Acquire
pub mod Steps
use dal.Prelude.{ℕ, Option, none, some, update, ◌==◌, if◌then◌else◌}
use dal.Lock.Raw.{Outcome, pending, acquired, busy}
use dal.Lock.Word.{locked, unlocked}
use dal.Lock.Mcs
use dal.Lock.Mcs.{Nodes, Leave}

-- `mcsepfl_mutex_create`: the nodes are the threads' own.
abbrev pub created : (ℕ → Option ℕ) → (ℕ → ℕ) → Nodes
created next spin = record { tail = none; next = next; spin = spin }

pub data Poll : Type 0 where
  clear_next : Poll  -- the first statement of `__mcsepfl_mutex_lock`
  exchange : Poll
  mark : (pred : ℕ) → Poll  -- me->spin = LOCKED
  link : (pred : ℕ) → Poll
  wait : Poll
  try_next : Poll  -- `mcsepfl_mutex_trylock`
  try_cas : Poll

-- what the exchange returned
abbrev pub after_exchange : Option ℕ → Outcome Poll
after_exchange none = acquired
after_exchange (some p) = pending (mark p)

abbrev pub try_tail : Nodes → ℕ → Option ℕ → Nodes × Outcome Poll
try_tail m i none = (record m { tail = some i }, acquired)
try_tail m i (some p) = (m, busy)

unfoldable pub poll : ℕ → Nodes → Poll → Nodes × Outcome Poll
poll i m clear_next = (record m { next = update m.next i none }, pending exchange)
poll i m exchange = (record m { tail = some i }, after_exchange m.tail)
poll i m (mark p) = (record m { spin = update m.spin i locked }, pending (link p))
poll i m (link p) = (record m { next = update m.next p (some i) }, pending wait)
poll i m wait = (m, if m.spin i == unlocked then acquired else pending wait)
poll i m try_next = (record m { next = update m.next i none }, pending try_cas)
poll i m try_cas = try_tail m i m.tail

-- `__mcsepfl_mutex_unlock` is `__mcs_mutex_unlock`.
unfoldable pub leave : ℕ → Nodes → Leave → Nodes × Option Leave
leave i m r = Mcs.leave i m r
