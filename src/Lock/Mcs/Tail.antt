-- ===== src/Lock/Mcs/Tail.antt =====
-- The tail of the MCS queue of litl2/src/mcs.c: what a step does to it.
use dal.Prelude.{
  ℕ, ◌-◌, ◌≡◌, ◌≢◌, ◌⊎◌, refl, true, false, Option, none, some, arith, inl, inr, Bool-cases, ==_iff,
  ap, sym,
}
use dal.Lock.Raw.{Raw}
use dal.Lock.Mcs.{
  Nodes, Poll, clear_next, clear_spin, enqueue, link, wait, try_next, try_spin, try_cas, Leave,
  read_next, cas_tail, wait_next, load_next, wake, poll, leave, try_tail, is_node,
}
use dal.Lock.Mcs.Queue.{Inv, queued}

try_tail_cases :
    (m : Nodes) (i : ℕ) (o : Option ℕ)
    → ((try_tail m i o).0.tail ≡ m.tail) ⊎ ((try_tail m i o).0.tail ≡ some i)
try_tail_cases m i none = inr refl
try_tail_cases m i (some p) = inl refl

-- A round of an acquire leaves the tail, or puts its own thread there.
pub poll-tail :
    (i : ℕ) (m : Nodes) (q : Poll) → ((poll i m q).0.tail ≡ m.tail) ⊎ ((poll i m q).0.tail ≡ some i)
unfolding poll
poll-tail i m clear_next = inl refl
poll-tail i m clear_spin = inl refl
poll-tail i m enqueue = inr refl
poll-tail i m (link p) = inl refl
poll-tail i m wait = inl refl
poll-tail i m try_next = inl refl
poll-tail i m try_spin = inl refl
poll-tail i m try_cas = try_tail_cases m i m.tail

pub is_node-some : (i : ℕ) (o : Option ℕ) → is_node i o ≡ true → o ≡ some i
is_node-some i none h = absurd (ground arith)
is_node-some i (some j) h = ap some (sym ((==_iff i j).0 h))

pub is_node-other : (i : ℕ) (o : Option ℕ) → is_node i o ≡ false → o ≢ some i
is_node-other i none h = λ e. ground arith
is_node-other i (some j) h = λ e. ground arith

-- A step of a release leaves the tail, unless its own thread is there.
pub leave-tail : (i : ℕ) (m : Nodes) (r : Leave) → m.tail ≢ some i → (leave i m r).0.tail ≡ m.tail
unfolding leave
leave-tail i m read_next other = refl
leave-tail i m cas_tail other = elim (Bool-cases (is_node i m.tail)) [
  | inl e ↦ absurd (other (is_node-some i m.tail e))
  | inr e ↦ rw e refl
]
leave-tail i m wait_next other = refl
leave-tail i m load_next other = refl
leave-tail i m (wake n) other = refl

-- While a thread is in the queue there is a tail.
pub queued-tail :
    {m : Nodes} {pc : ℕ → Raw Poll Leave} (v : Inv m pc) (i : ℕ)
    → queued (pc i) ≡ true
    → m.tail ≢ none
queued-tail {m} v i on empty =
    let p = v.placed i on in
    let e = v.tail_some (v.last - 1) (omega (arith, p.0, p.1)) (omega (arith, p.1)) in
    absurd (ground (arith, e))
