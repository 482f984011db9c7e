-- ===== src/Lock/Cbomcs/Kept.antt =====
-- The flag of a node of cbomcs.c is set only while somebody is queued in the lock of that node.
use dal.Prelude.{
  ℕ, ◌≡◌, ◌≢◌, refl, Bool, true, false, none, some, update, ◌==◌, inl, inr, arith, ◌&&◌, not,
  ==_refl, sym, subst, ◌∙◌, ℕ_discrete, ◌⊎◌,
}
use dal.Lock.Raw.{Raw, polling, held, leaving}
use dal.Lock.Cohort.{side}
use dal.Lock.Mcs
use dal.Lock.Mcs.{Nodes}
use dal.Lock.Mcs.Queue.{queued, waits}
use dal.Lock.Mcs.Steps as McsSteps
use dal.Lock.Mcs.Tail.{queued-tail}
use dal.Lock.Cbomcs.{Cohort, Poll, at_top, give_up, Leave, count, set_grant, pass_local}
use dal.Lock.Cbomcs.Places.{local_place, Inv}

-- A release that found somebody behind it.
abbrev pub hands_on : Raw Poll Leave → Bool
hands_on (leaving (count k)) = true
hands_on (leaving (set_grant k)) = true
hands_on (leaving (pass_local k r)) = true
hands_on _ = false

-- An acquire that found the flag of its node not set.
abbrev pub past_flag : Raw Poll Leave → Bool
past_flag (polling (at_top q)) = true
past_flag (polling (give_up r)) = true
past_flag _ = false

-- Somebody else than `i` is the tail.
abbrev pub OtherTail : ℕ → Nodes → Type 0
OtherTail i c = (c.tail ≢ none) × (c.tail ≢ some i)

pub record Kept (node : ℕ → ℕ) (locks : ℕ → Nodes) (grant : ℕ → Bool) (pc : ℕ → Raw Poll Leave)
    : Type 0 where
  pub waiting : (k : ℕ) → grant k ≡ true → (locks k).tail ≢ none
  pub behind : (j : ℕ) → hands_on (pc j) ≡ true → OtherTail j (locks (node j))
  pub passed : (j : ℕ) → past_flag (pc j) ≡ true → grant (node j) ≡ false

-- A thread that has the lock of its node, or gives it back.
abbrev pub served : Raw Poll Leave → Bool
served p = queued (local_place p) && not (waits (local_place p))

hands_on-served : (p : Raw Poll Leave) → hands_on p ≡ true → served p ≡ true
hands_on-served (leaving (count k)) h = refl
hands_on-served (leaving (set_grant k)) h = refl
hands_on-served (leaving (pass_local k r)) h = refl
hands_on-served p h = absurd (ground arith)

module _ {node : ℕ → ℕ} {m : Cohort} {pc : ℕ → Raw Poll Leave} (v : Inv node m pc)
    (w : Kept node m.local_locks m.top_grant pc) (i : ℕ) where
  open w use {waiting, behind, passed}

  placed_here : (j : ℕ) → node j ≡ node i → side local_place node (node i) pc j ≡ local_place (pc j)
  placed_here j same = let e : (node j == node i) ≡ true = ground arith in rw e refl

  -- One thread of a node is served at a time.
  pub one_served : (j : ℕ) → node j ≡ node i → served (pc i) ≡ true → served (pc j) ≡ true → i ≡ j
  one_served j same si sj =
      let hi = placed_here i refl in
      let hj = placed_here j same in
      sym (McsSteps.holder (v.below (node i)) i (rw hi (ground arith)) (rw hi (ground arith)))
      ∙ McsSteps.holder (v.below (node i)) j (rw hj (ground arith)) (rw hj (ground arith))

  pub served-tail : served (pc i) ≡ true → (m.local_locks (node i)).tail ≢ none
  served-tail s =
      let hi = placed_here i refl in queued-tail (v.below (node i)) i (rw hi (ground arith))

  others :
      (locks : ℕ → Nodes) (p' : Raw Poll Leave)
      → (hands_on p' ≡ true → OtherTail i (locks (node i)))
      → ((j : ℕ) → i ≢ j → hands_on (pc j) ≡ true → OtherTail j (locks (node j)))
      → (j : ℕ) → hands_on (update pc i p' j) ≡ true
      → OtherTail j (locks (node j))
  others locks p' mine rest j = elim (ℕ_discrete i j) [
    | yes e ↦
        let b : (i == j) ≡ true = ground arith in
        rw b (subst (λ j. hands_on p' ≡ true → OtherTail j (locks (node j))) e mine)
    | no ne ↦ let b : (i == j) ≡ false = ground arith in rw b (rest j ne)
  ]

  -- A step that writes no flag and no tail.
  pub calm :
      (p' : Raw Poll Leave)
      → (hands_on p' ≡ true → OtherTail i (m.local_locks (node i)))
      → (past_flag p' ≡ true → m.top_grant (node i) ≡ false)
      → Kept node m.local_locks m.top_grant (update pc i p')
  calm p' mine past = record {
    waiting = waiting;
    behind = others m.local_locks p' mine (λ j ne. behind j);
    passed = λ j h. ground (arith, passed j);
  }

  -- A step in the lock of the node that empties no queue and puts no other thread at its end.
  pub requeued :
      (c : Nodes) (p' : Raw Poll Leave)
      → (c.tail ≡ (m.local_locks (node i)).tail) ⊎ (c.tail ≡ some i)
      → (hands_on p' ≡ true → OtherTail i c)
      → (past_flag p' ≡ true → m.top_grant (node i) ≡ false)
      → Kept node (update m.local_locks (node i) c) m.top_grant (update pc i p')
  requeued c p' tails mine past = record {
    waiting =
        λ k h. elim tails [ inl e ↦ ground (arith, waiting k) | inr e ↦ ground (arith, waiting k) ];
    behind =
        others (update m.local_locks (node i) c) p' (λ h. rw (==_refl (node i)) (mine h))
          (λ j ne h. elim tails [
            | inl e ↦ ground (arith, behind j)
            | inr e ↦ ground (arith, behind j)
          ]);
    passed = λ j h. ground (arith, passed j);
  }

  -- A thread leaves the lock of its node, whose flag is not set.
  pub left :
      (c : Nodes) (p' : Raw Poll Leave)
      → served (pc i) ≡ true
      → m.top_grant (node i) ≡ false
      → hands_on p' ≡ false
      → Kept node (update m.local_locks (node i) c) m.top_grant (update pc i p')
  left c p' on unset out = record {
    waiting = λ k h. ground (arith, waiting k);
    behind =
        others (update m.local_locks (node i) c) p' (λ h. cc)
          (λ j ne h. elim (ℕ_discrete (node j) (node i)) [
            | yes same ↦ absurd (ne (one_served j same on (hands_on-served (pc j) h)))
            | no apart ↦ ground (arith, behind j)
          ]);
    passed = λ j h. ground (arith, passed j);
  }

  -- The flag of the node is cleared.
  pub unflagged : Kept node m.local_locks (update m.top_grant (node i) false) (update pc i held)
  unflagged = record {
    waiting = λ k h. ground (arith, waiting k);
    behind = others m.local_locks held (λ h. cc) (λ j ne. behind j);
    passed = λ j h. ground (arith, passed j);
  }

  past_flag-at : (p : Raw Poll Leave) → past_flag p ≡ true → served p ≡ true
  past_flag-at (polling (at_top q)) h = refl
  past_flag-at (polling (give_up r)) h = refl
  past_flag-at p h = absurd (ground arith)

  -- A holder that is followed sets the flag.
  pub flagged :
      (r : Mcs.Leave)
      → hands_on (pc i) ≡ true
      → Kept node m.local_locks
          (update m.top_grant (node i) true)
          (update pc i (leaving (pass_local (node i) r)))
  flagged r on = record {
    waiting = λ k h. ground (arith, waiting k, (behind i on).0);
    behind =
        others m.local_locks (leaving (pass_local (node i) r)) (λ h. behind i on)
          (λ j ne. behind j);
    passed = λ j h. elim (ℕ_discrete i j) [
      | yes e ↦ absurd (ground arith)
      | no ne ↦ elim (ℕ_discrete (node j) (node i)) [
        | yes same ↦ absurd (
            ne (one_served j same (hands_on-served (pc i) on) (past_flag-at (pc j) (ground arith))))
        | no apart ↦ ground (arith, passed j)
      ]
    ];
  }
