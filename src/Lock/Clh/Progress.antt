-- ===== src/Lock/Clh/Progress.antt =====
-- The queue of a CLH lock never stalls.
use dal.Prelude.{
  ℕ, suc, ◌<◌, ◌≡◌, ◌≢◌, refl, true, false, Option, none, some, arith, Bool-cases, inl, inr, subst,
}
use dal.Lock.Raw.{Raw, idle, polling, held, leaving}
use dal.Lock.Progress.{Moves}
use dal.Lock.Clh.{
  Nodes, Poll, mark, swap, wait, set_head, adopt, refuse, Leave, read_head, wake, loaded, poll,
  leave,
}
use dal.Lock.Clh.Queue.{queued, Local, Inv}
use dal.Lock.Clh.Steps.{clh, head_node}

module _ {m : Nodes} {pc : ℕ → Raw Poll Leave} (v : Inv m pc) where
  open v use {first, last, at, pos, node, placed, filled, free, locals}

  free_to_go :
      (i : ℕ) (p : Raw Poll Leave)
      → queued p ≡ false
      → p ≢ idle
      → p ≢ polling refuse
      → Moves clh i m p
  unfolding poll
  free_to_go i idle out on able = absurd (on refl)
  free_to_go i (polling mark) out on able = λ h. ground arith
  free_to_go i (polling swap) out on able = λ h. ground arith
  free_to_go i (polling refuse) out on able = absurd (able refl)
  free_to_go i p out on able = absurd (ground arith)

  go_wake : (h : Option ℕ) (n : ℕ) → h ≡ some n → loaded h ≢ read_head
  go_wake none n e = absurd (ground arith)
  go_wake (some k) n e = λ h. ground arith

  -- The thread that has the first place can go on.
  at_front :
      (f : ℕ) (p : Raw Poll Leave) → pc f ≡ p → queued p ≡ true → pos f ≡ first → Moves clh f m p
  unfolding poll leave
  at_front f (polling (wait x)) e on place =
      let here : (x ≡ node (pos f)) × (m.current f ≡ node (suc (pos f))) =
        subst (Local m node (pos f) f) e (locals f) in
      λ h. ground (arith, free)
  at_front f (polling (set_head x)) e on place = λ h. ground arith
  at_front f (polling (adopt x)) e on place = λ h. ground arith
  at_front f held e on place = tt
  at_front f (leaving read_head) e on place =
      let d = head_node v f e in λ h. go_wake m.head d.0 d.1 (ground arith)
  at_front f (leaving (wake x)) e on place = λ h. ground arith
  at_front f p e on place = absurd (ground arith)

  -- While a thread is on its way in or out, and not in a failed assertion, some thread can go on.
  pub progress : (i : ℕ) → pc i ≢ idle → pc i ≢ polling refuse → (j : ℕ) × Moves clh j m (pc j)
  progress i on able = elim (Bool-cases (queued (pc i))) [
    | inl q ↦
        let nonempty : first < last = ground (arith, placed i) in
        let front : (queued (pc (at first)) ≡ true) × (pos (at first) ≡ first) =
          filled first (omega arith) nonempty in
        (at first, at_front (at first) (pc (at first)) refl front.0 front.1)
    | inr q ↦ (i, free_to_go i (pc i) q on able)
  ]
