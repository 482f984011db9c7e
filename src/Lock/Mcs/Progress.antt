-- ===== src/Lock/Mcs/Progress.antt =====
-- The queue of an MCS lock never stalls.
use dal.Prelude.{
  ℕ, suc, ◌<◌, ◌≡◌, ◌≢◌, refl, true, false, Option, none, some, arith, Bool-cases, inl, inr, subst,
  sym,
}
use dal.Lock.Raw.{Raw, idle, polling, held, leaving, pending}
use dal.Lock.Progress.{Moves}
use dal.Lock.Mcs.{
  Nodes, Poll, clear_next, clear_spin, enqueue, link, wait, try_next, try_spin, try_cas, try_tail,
  after_swap, Leave, read_next, cas_tail, wait_next, load_next, wake, if_next, loaded, is_node,
  poll, leave,
}
use dal.Lock.Mcs.Queue.{queued, link_to, Local, Inv}
use dal.Lock.Mcs.Steps.{mcs}

module _ {m : Nodes} {pc : ℕ → Raw Poll Leave} (v : Inv m pc) where
  open v use {first, last, at, pos, placed, filled, tail_some, links, open_end, woken, locals}

  after_swap-moves : (t : Option ℕ) → after_swap t ≢ pending enqueue
  after_swap-moves none h = absurd (ground arith)
  after_swap-moves (some p) h = absurd (ground arith)

  try_tail-moves : (i : ℕ) (t : Option ℕ) → (try_tail m i t).1 ≢ pending try_cas
  try_tail-moves i none h = absurd (ground arith)
  try_tail-moves i (some p) h = absurd (ground arith)

  -- Outside the queue nothing holds a thread up.
  free_to_go : (i : ℕ) (p : Raw Poll Leave) → queued p ≡ false → p ≢ idle → Moves mcs i m p
  unfolding poll
  free_to_go i idle out on = absurd (on refl)
  free_to_go i (polling clear_next) out on = λ h. ground arith
  free_to_go i (polling clear_spin) out on = λ h. ground arith
  free_to_go i (polling enqueue) out on = after_swap-moves m.tail
  free_to_go i (polling (link p)) out on = absurd (ground arith)
  free_to_go i (polling wait) out on = absurd (ground arith)
  free_to_go i (polling try_next) out on = λ h. ground arith
  free_to_go i (polling try_spin) out on = λ h. ground arith
  free_to_go i (polling try_cas) out on = try_tail-moves i m.tail
  free_to_go i held out on = tt
  free_to_go i (leaving r) out on = absurd (ground arith)

  go_load : (f : ℕ) (o : Option ℕ) → o ≢ none → loaded o ≢ load_next
  go_load f none there h = there refl
  go_load f (some n) there h = ground arith

  go_on : (o : Option ℕ) → if_next o cas_tail ≢ read_next
  go_on none h = ground arith
  go_on (some n) h = ground arith

  -- A holder that waits for its successor to link itself has one that can.
  awaited :
      (f : ℕ) (o : Option ℕ)
      → m.next f ≡ o
      → pc f ≡ leaving wait_next
      → pos f ≡ first
      → at first ≡ f
      → (j : ℕ) × Moves mcs j m (pc j)
  unfolding poll leave
  awaited f (some n) z e place me = (f, subst (Moves mcs f m) (sym e) (rw z (λ h. ground arith)))
  awaited f none z e place me = (at (suc first), late (pc (at (suc first))) unlinked)
    where
      more : suc first < last
      more = ground (arith, placed f, tail_some first, locals f)

      unlinked :
          (link_to (pc (at (suc first))) (at (suc first)) ≡ none)
          × (queued (pc (at (suc first))) ≡ true)
      unlinked = ground (arith, links (at (suc first)), filled (suc first), more)

      late :
          (p : Raw Poll Leave)
          → (link_to p (at (suc first)) ≡ none) × (queued p ≡ true)
          → Moves mcs (at (suc first)) m p
      late (polling (link x)) h = λ h'. ground arith
      late p h = absurd (ground arith)

  -- The thread that has the first place, or the one behind it, can go on.
  at_front :
      (f : ℕ) (p : Raw Poll Leave)
      → pc f ≡ p
      → queued p ≡ true
      → pos f ≡ first
      → at first ≡ f
      → (j : ℕ) × Moves mcs j m (pc j)
  unfolding poll leave
  at_front f (polling (link x)) e on place me =
      (f, subst (Moves mcs f m) (sym e) (λ h. ground arith))
  at_front f (polling wait) e on place me =
      (f, subst (Moves mcs f m) (sym e) (λ h. ground (arith, woken f)))
  at_front f held e on place me = (f, subst (Moves mcs f m) (sym e) tt)
  at_front f (leaving read_next) e on place me =
      (f, subst (Moves mcs f m) (sym e) (λ h. go_on (m.next f) (ground arith)))
  at_front f (leaving cas_tail) e on place me =
      (f, subst (Moves mcs f m) (sym e) (λ h. ground (arith, Bool-cases (is_node f m.tail))))
  at_front f (leaving wait_next) e on place me = awaited f (m.next f) refl e place me
  at_front f (leaving load_next) e on place me = (
    f,
    subst (Moves mcs f m) (sym e)
        (λ h. go_load f (m.next f) (subst (Local m f) e (locals f)) (ground arith)),
  )
  at_front f (leaving (wake x)) e on place me =
      (f, subst (Moves mcs f m) (sym e) (λ h. ground arith))
  at_front f p e on place me = absurd (ground arith)

  -- While a thread is on its way in or out, some thread can go on.
  pub progress : (i : ℕ) → pc i ≢ idle → (j : ℕ) × Moves mcs j m (pc j)
  progress i on = elim (Bool-cases (queued (pc i))) [
    | inl q ↦
        let nonempty : first < last = ground (arith, placed i) in
        let front : (queued (pc (at first)) ≡ true) × (pos (at first) ≡ first) =
          filled first (omega arith) nonempty in
        at_front (at first) (pc (at first)) refl front.0 front.1 refl
    | inr q ↦ (i, free_to_go i (pc i) q on)
  ]
