-- ===== src/Lock/Clh.antt =====
-- litl2/src/clh.c: a queue in which a thread waits on the node of the thread before it, and takes
-- that node with it. The node of the lock itself (`dummy`) is 0, and that of the context of thread
-- `i` is `suc i`. The waiting policy is the spinning one of litl2/src/waiting_policy.h.
pub mod Queue
pub mod Moves
pub mod Steps
pub mod Progress
use dal.Prelude.{ℕ, suc, Option, none, some, update, ◌==◌, if◌then◌else◌}
use dal.Lock.Raw.{Outcome, pending, acquired}
use dal.Lock.Word.{locked, unlocked}

abbrev pub dummy : ℕ
dummy = 0

pub record Nodes : Type 0 where
  pub head : Option ℕ
  pub tail : ℕ
  pub spin : ℕ → ℕ
  pub current : ℕ → ℕ  -- of each thread's context

pub data Poll : Type 0 where
  mark : Poll  -- the first store of `__clh_mutex_lock`
  swap : Poll  -- its exchange
  wait : (pred : ℕ) → Poll  -- `waiting_policy_sleep`
  set_head : (pred : ℕ) → Poll
  adopt : (pred : ℕ) → Poll
  refuse : Poll  -- `clh_mutex_trylock`: its assertion stops the thread

pub data Leave : Type 0 where
  read_head : Leave  -- `__clh_mutex_unlock`
  wake : (node : ℕ) → Leave

-- `clh_mutex_create`, and `clh_init_context` for every thread
abbrev pub created : Nodes
created = record { head = none; tail = dummy; spin = λ n. unlocked; current = suc }

unfoldable pub poll : ℕ → Nodes → Poll → Nodes × Outcome Poll
poll i m mark = (record m { spin = update m.spin (m.current i) locked }, pending swap)
poll i m swap = (record m { tail = m.current i }, pending (wait m.tail))
poll i m (wait pred) = (m, pending (if m.spin pred == locked then wait pred else set_head pred))
poll i m (set_head pred) = (record m { head = some (m.current i) }, pending (adopt pred))
poll i m (adopt pred) = (record m { current = update m.current i pred }, acquired)
poll i m refuse = (m, pending refuse)

-- Through a head that is NULL there is no store: the thread stops.
abbrev pub loaded : Option ℕ → Leave
loaded none = read_head
loaded (some n) = wake n

unfoldable pub leave : ℕ → Nodes → Leave → Nodes × Option Leave
leave i m read_head = (m, some (loaded m.head))
leave i m (wake n) = (record m { spin = update m.spin n unlocked }, none)
