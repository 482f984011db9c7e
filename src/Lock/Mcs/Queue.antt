-- ===== src/Lock/Mcs/Queue.antt =====
-- The queue of an MCS lock: its places are numbered, from the holder's on.
use dal.Prelude.{ℕ, suc, ◌-◌, ◌≤◌, ◌<◌, ◌≡◌, ◌≢◌, Bool, true, false, Option, none, some}
use dal.Lock.Raw.{Raw, polling, held, leaving}
use dal.Lock.Word.{locked, unlocked}
use dal.Lock.Mcs.{
  Nodes, Poll, clear_spin, enqueue, link, wait, try_spin, try_cas, Leave, wait_next, load_next,
  wake,
}

-- A thread whose node is in the queue.
abbrev pub queued : Raw Poll Leave → Bool
queued (polling (link p)) = true
queued (polling wait) = true
queued held = true
queued (leaving _) = true
queued _ = false

abbrev pub waits : Raw Poll Leave → Bool
waits (polling (link p)) = true
waits (polling wait) = true
waits _ = false

-- What the node before the one of `i` points to.
abbrev pub link_to : Raw Poll Leave → ℕ → Option ℕ
link_to (polling (link p)) i = none
link_to _ i = some i

abbrev pub Local : Nodes → ℕ → Raw Poll Leave → Type 0
Local m i (polling clear_spin) = m.next i ≡ none
Local m i (polling try_spin) = m.next i ≡ none
Local m i (polling enqueue) = (m.next i ≡ none) × (m.spin i ≡ locked)
Local m i (polling try_cas) = (m.next i ≡ none) × (m.spin i ≡ locked)
Local m i (leaving wait_next) = m.tail ≢ some i
Local m i (leaving load_next) = m.next i ≢ none
Local m i (leaving (wake n)) = m.next i ≡ some n
Local m i _ = Unit

pub record Inv (m : Nodes) (pc : ℕ → Raw Poll Leave) : Type 0 where
  -- the number of the holder's place, the first free number, and who has which place
  pub first : ℕ
  pub last : ℕ
  pub at : ℕ → ℕ
  pub pos : ℕ → ℕ
  pub order : first ≤ last
  pub placed : (i : ℕ) → queued (pc i) ≡ true → (first ≤ pos i) × (pos i < last) × (at (pos i) ≡ i)
  pub filled : (k : ℕ) → first ≤ k → k < last → (queued (pc (at k)) ≡ true) × (pos (at k) ≡ k)
  pub tail_none : first ≡ last → m.tail ≡ none
  pub tail_some : (k : ℕ) → first ≤ k → suc k ≡ last → m.tail ≡ some (at k)
  pub behind : (i : ℕ) → queued (pc i) ≡ true → pos i ≢ first → waits (pc i) ≡ true
  pub links :
      (i : ℕ) → queued (pc i) ≡ true → pos i ≢ first → m.next (at (pos i - 1)) ≡ link_to (pc i) i
  pub preds : (i p : ℕ) → pc i ≡ polling (link p) → (pos i ≢ first) × (p ≡ at (pos i - 1))
  pub open_end : (k : ℕ) → first ≤ k → suc k ≡ last → m.next (at k) ≡ none
  pub spins : (i : ℕ) → queued (pc i) ≡ true → pos i ≢ first → m.spin i ≡ locked
  pub woken : (i : ℕ) → pc i ≡ polling wait → pos i ≡ first → m.spin i ≡ unlocked
  pub locals : (i : ℕ) → Local m i (pc i)
