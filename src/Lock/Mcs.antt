-- ===== src/Lock/Mcs.antt =====
-- litl2/src/mcs.c: a queue of nodes, one node for each thread (its context), and the last of them
-- in the lock. The waiting policy is the spinning one of litl2/src/waiting_policy.h.
pub mod Queue
pub mod Moves
pub mod Steps
pub mod Handover
pub mod Progress
pub mod Tail
use dal.Prelude.{ℕ, Bool, false, Option, none, some, update, ◌==◌, if◌then◌else◌}
use dal.Lock.Raw.{Outcome, pending, acquired, busy}
use dal.Lock.Word.{locked, unlocked}

-- Pointers to nodes; `none` is NULL.
pub record Nodes : Type 0 where
  pub tail : Option ℕ
  pub next : ℕ → Option ℕ
  pub spin : ℕ → ℕ

pub data Poll : Type 0 where
  clear_next : Poll  -- the first statements of `__mcs_mutex_lock`
  clear_spin : Poll
  enqueue : Poll  -- its exchange
  link : (pred : ℕ) → Poll
  wait : Poll  -- `waiting_policy_sleep`
  try_next : Poll  -- the statements of `mcs_mutex_trylock`
  try_spin : Poll
  try_cas : Poll

pub data Leave : Type 0 where
  read_next : Leave  -- the first test of `__mcs_mutex_unlock`
  cas_tail : Leave
  wait_next : Leave  -- its `while`
  load_next : Leave
  wake : (next : ℕ) → Leave  -- the store of `waiting_policy_wake`

-- what the exchange returned
abbrev pub after_swap : Option ℕ → Outcome Poll
after_swap none = acquired
after_swap (some p) = pending (link p)

abbrev pub try_tail : Nodes → ℕ → Option ℕ → Nodes × Outcome Poll
try_tail m i none = (record m { tail = some i }, acquired)
try_tail m i (some p) = (m, busy)

unfoldable pub poll : ℕ → Nodes → Poll → Nodes × Outcome Poll
poll i m clear_next = (record m { next = update m.next i none }, pending clear_spin)
poll i m clear_spin = (record m { spin = update m.spin i locked }, pending enqueue)
poll i m enqueue = (record m { tail = some i }, after_swap m.tail)
poll i m (link p) = (record m { next = update m.next p (some i) }, pending wait)
poll i m wait = (m, if m.spin i == locked then pending wait else acquired)
poll i m try_next = (record m { next = update m.next i none }, pending try_spin)
poll i m try_spin = (record m { spin = update m.spin i locked }, pending try_cas)
poll i m try_cas = try_tail m i m.tail

-- `!me->next` leads to `here`, else the successor is there.
abbrev pub if_next : Option ℕ → Leave → Leave
if_next none here = here
if_next (some n) here = load_next

-- A NULL successor cannot be woken: the thread stops.
abbrev pub loaded : Option ℕ → Leave
loaded none = load_next
loaded (some n) = wake n

abbrev pub is_node : ℕ → Option ℕ → Bool
is_node i none = false
is_node i (some j) = i == j

unfoldable pub leave : ℕ → Nodes → Leave → Nodes × Option Leave
leave i m read_next = (m, some (if_next (m.next i) cas_tail))
leave i m cas_tail =
    if is_node i m.tail then (record m { tail = none }, none) else (m, some wait_next)
leave i m wait_next = (m, some (if_next (m.next i) wait_next))
leave i m load_next = (m, some (loaded (m.next i)))
leave i m (wake n) = (record m { spin = update m.spin n unlocked }, none)
