-- ===== src/Lock/Clh/Queue.antt =====
-- The queue of a CLH lock: its places are numbered, from the holder's on. The thread at a place
-- waits on the node with the place's number, and its own node has the next number.
use dal.Prelude.{ℕ, suc, ◌≤◌, ◌<◌, ◌≡◌, ◌≢◌, Bool, true, false, some}
use dal.Lock.Raw.{Raw, idle, polling, held, leaving}
use dal.Lock.Word.{locked, unlocked}
use dal.Lock.Clh.{Nodes, Poll, mark, swap, wait, set_head, adopt, refuse, Leave, read_head, wake}

-- A thread between its exchange and the end of its release.
abbrev pub queued : Raw Poll Leave → Bool
queued idle = false
queued (polling mark) = false
queued (polling swap) = false
queued (polling refuse) = false
queued _ = true

abbrev pub waits : Raw Poll Leave → Bool
waits (polling (wait p)) = true
waits _ = false

-- What a thread knows; `here` is the number of its place.
abbrev pub Local : Nodes → (ℕ → ℕ) → ℕ → ℕ → Raw Poll Leave → Type 0
Local m node here i (polling swap) = m.spin (m.current i) ≡ locked
Local m node here i (polling (wait p)) = (p ≡ node here) × (m.current i ≡ node (suc here))
Local m node here i (polling (set_head p)) = (p ≡ node here) × (m.current i ≡ node (suc here))
Local m node here i (polling (adopt p)) =
    (p ≡ node here) × (m.current i ≡ node (suc here)) × (m.head ≡ some (node (suc here)))
Local m node here i held = (m.current i ≡ node here) × (m.head ≡ some (node (suc here)))
Local m node here i (leaving read_head) =
    (m.current i ≡ node here) × (m.head ≡ some (node (suc here)))
Local m node here i (leaving (wake n)) = (m.current i ≡ node here) × (n ≡ node (suc here))
Local m node here i _ = Unit

pub record Inv (m : Nodes) (pc : ℕ → Raw Poll Leave) : Type 0 where
  -- the number of the holder's place, the first free number, who has which place, and the nodes
  pub first : ℕ
  pub last : ℕ
  pub at : ℕ → ℕ
  pub pos : ℕ → ℕ
  pub node : ℕ → ℕ
  pub order : first ≤ last
  pub tail_is : m.tail ≡ node last
  pub placed : (i : ℕ) → queued (pc i) ≡ true → (first ≤ pos i) × (pos i < last) × (at (pos i) ≡ i)
  pub filled : (k : ℕ) → first ≤ k → k < last → (queued (pc (at k)) ≡ true) × (pos (at k) ≡ k)
  pub behind : (i : ℕ) → queued (pc i) ≡ true → pos i ≢ first → waits (pc i) ≡ true
  pub free : m.spin (node first) ≡ unlocked
  pub busy : (k : ℕ) → first < k → k ≤ last → m.spin (node k) ≡ locked
  pub apart : (j k : ℕ) → first ≤ j → j < k → k ≤ last → node j ≢ node k
  -- the nodes of the threads outside are in nobody else's hands
  pub fresh : (i k : ℕ) → queued (pc i) ≡ false → first ≤ k → k ≤ last → m.current i ≢ node k
  pub own :
      (i j : ℕ) → queued (pc i) ≡ false → queued (pc j) ≡ false → i ≢ j → m.current i ≢ m.current j
  pub locals : (i : ℕ) → Local m node (pos i) i (pc i)
