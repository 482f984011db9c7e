-- ===== src/Lock/Ctkttkt/Places.antt =====
-- The locks of a cohort lock, each as a ticket lock of its own: a thread in the lock of its node,
-- and the nodes, in the place of threads, in the upper lock.
use dal.Prelude.{ℕ, ◌≡◌, Bool, true, false, some}
use dal.Lock.Raw.{Raw, idle, polling, held, leaving}
use dal.Lock.Cohort as Cohort
use dal.Lock.Ticket
use dal.Lock.Ticket.Tickets
use dal.Lock.Ctkttkt.{
  Cohort, Poll, at_local, look, clear, at_top, set_home, give_up, Leave, read_home, read_grant,
  test_request, count, set_grant, reset, release_top, store_grant,
}

-- Where a thread stands in the lock of its node.
abbrev pub local_place : Raw Poll Leave → Raw Ticket.Poll Ticket.Leave
local_place idle = idle
local_place (polling (at_local q)) = polling q
local_place (polling (give_up r)) = leaving r
local_place (polling _) = held
local_place held = held
local_place (leaving read_home) = leaving Ticket.read_grant
local_place (leaving (read_grant k)) = leaving Ticket.read_grant
local_place (leaving (test_request k g)) = leaving (Ticket.write_grant g)
local_place (leaving (count k g)) = leaving (Ticket.write_grant g)
local_place (leaving (set_grant k g)) = leaving (Ticket.write_grant g)
local_place (leaving (reset k g)) = leaving (Ticket.write_grant g)
local_place (leaving (release_top k g r)) = leaving (Ticket.write_grant g)
local_place (leaving (store_grant k g)) = leaving (Ticket.write_grant g)

-- A thread that has the lock of its node.
abbrev pub inside : Raw Poll Leave → Bool
inside idle = false
inside (polling (at_local q)) = false
inside _ = true

-- A thread that has the upper lock, and whose node is the home.
abbrev pub at_home : Raw Poll Leave → Bool
at_home held = true
at_home (leaving (store_grant k g)) = false
at_home (leaving (release_top k g r)) = false
at_home (leaving _) = true
at_home _ = false

-- What a thread of node `k` knows: where its node stands in the upper lock, and the flag.
abbrev pub Knows : ℕ → Bool → Raw Ticket.Poll Ticket.Leave → Raw Poll Leave → Type 0
Knows k flag top idle = Unit
Knows k flag top (polling (at_local q)) = Unit
Knows k flag top (polling (look mode)) = flag ≡ false → top ≡ idle
Knows k flag top (polling clear) = flag ≡ true
Knows k flag top (polling (at_top q)) = (flag ≡ false) × (top ≡ polling q)
Knows k flag top (polling set_home) = (flag ≡ false) × (top ≡ held)
Knows k flag top (polling (give_up r)) = (flag ≡ false) × (top ≡ idle)
Knows k flag top held = (flag ≡ false) × (top ≡ held)
Knows k flag top (leaving read_home) = (flag ≡ false) × (top ≡ held)
Knows k flag top (leaving (read_grant k')) = (flag ≡ false) × (top ≡ held) × (k' ≡ k)
Knows k flag top (leaving (test_request k' g)) = (flag ≡ false) × (top ≡ held) × (k' ≡ k)
Knows k flag top (leaving (count k' g)) = (flag ≡ false) × (top ≡ held) × (k' ≡ k)
Knows k flag top (leaving (set_grant k' g)) = (flag ≡ false) × (top ≡ held) × (k' ≡ k)
Knows k flag top (leaving (reset k' g)) = (flag ≡ false) × (top ≡ held) × (k' ≡ k)
Knows k flag top (leaving (release_top k' g r)) = (flag ≡ false) × (top ≡ leaving r) × (k' ≡ k)
Knows k flag top (leaving (store_grant k' g)) = (flag ≡ false → top ≡ idle) × (k' ≡ k)

module _ (nodes : ℕ) (node : ℕ → ℕ) where
  -- The threads of node `k`, in its lock.
  abbrev pub side : ℕ → (ℕ → Raw Poll Leave) → ℕ → Raw Ticket.Poll Ticket.Leave
  side = Cohort.side local_place node

  -- `tops` says where each node stands in the upper lock.
  pub record Inv (n : ℕ) (m : Cohort) (pc : ℕ → Raw Poll Leave) : Type 0 where
    pub tops : ℕ → Raw Ticket.Poll Ticket.Leave
    pub below : (k : ℕ) → Tickets.Inv n (m.local_locks k) (side k pc)
    pub above : Tickets.Inv nodes m.top_lock tops
    pub granted : (k : ℕ) → m.top_grant k ≡ true → (tops k ≡ held) × (m.top_home ≡ some k)
    pub rest :
        (k : ℕ)
        → ((i : ℕ) → node i ≡ k → inside (pc i) ≡ false)
        → m.top_grant k ≡ false
        → tops k ≡ idle
    pub knows : (i : ℕ) → Knows (node i) (m.top_grant (node i)) (tops (node i)) (pc i)
    pub homes : (i : ℕ) → at_home (pc i) ≡ true → m.top_home ≡ some (node i)
