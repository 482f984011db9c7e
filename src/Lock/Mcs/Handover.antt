-- ===== src/Lock/Mcs/Handover.antt =====
-- Whom an MCS lock is handed to.
use dal.Prelude.{ℕ, suc, ◌<◌, ◌≡◌, ◌≢◌, refl, true, some, arith, Option-cases, inl, inr, subst}
use dal.Lock.Raw.{Raw, polling, leaving}
use dal.Lock.Word.{locked}
use dal.Lock.Mcs.{Nodes, Poll, wait, Leave, load_next}
use dal.Lock.Mcs.Queue.{queued, waits, link_to, Local, Inv}
use dal.Lock.Mcs.Moves.{only_wait}

module _ {m : Nodes} {pc : ℕ → Raw Poll Leave} (v : Inv m pc) (i : ℕ) where
  open v use {at, pos, placed, filled, behind, links, open_end, spins}

  -- A successor that is there waits to be woken.
  successor :
      (n : ℕ)
      → queued (pc i) ≡ true
      → m.next i ≡ some n
      → (pc n ≡ polling wait) × (n ≢ i) × (m.spin n ≡ locked)
  successor n on e = (
    subst (λ b. pc b ≡ polling wait) who (only_wait _ _ n next_is.1 next_is.0),
    ground (arith, who, more, placed i, filled (suc (pos i))),
    ground (arith, who, more, spins (at (suc (pos i))), placed i, filled (suc (pos i))),
  )
    where
      more : suc (pos i) < v.last
      more = ground (arith, placed i, open_end (pos i))

      next_is :
          (link_to (pc (at (suc (pos i)))) (at (suc (pos i))) ≡ some n)
          × (waits (pc (at (suc (pos i)))) ≡ true)
      next_is = ground (
        arith,
        links (at (suc (pos i))),
        filled (suc (pos i)),
        placed i,
        more,
        behind (at (suc (pos i))),
      )

      who : at (suc (pos i)) ≡ n
      who = ground (arith, next_is)

  -- Who is woken next.
  pub wake_target :
      pc i ≡ leaving load_next
      → (j : ℕ) × (m.next i ≡ some j) × (pc j ≡ polling wait) × (j ≢ i) × (m.spin j ≡ locked)
  wake_target e = elim (Option-cases (m.next i)) [
    | inl f ↦ absurd (subst (Local m i) e (v.locals i) f)
    | inr (j, f) ↦ let s = successor j (rw e refl) f in (j, f, s.0, s.1, s.2)
  ]
