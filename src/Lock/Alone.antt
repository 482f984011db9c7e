-- ===== src/Lock/Alone.antt =====
-- A release that no other thread interrupts, as a whole: `__ctkt_mutex_unlock` of litl2/src/ctkttkt.c
-- from its first step to its last, and a description of it in one piece.
use dal.Prelude.{
  ℕ, ◌+◌, ◌≡◌, refl, Bool, true, false, Option, none, some, update, ◌==◌, if◌then◌else◌, Bool-cases,
  inl, inr, ap, ◌∙◌, update_twice,
}
use dal.Lock.Raw.{alone}
use dal.Lock.Cohort.{decrement, is_natural}
use dal.Lock.Ticket
use dal.Lock.Ticket.{u32}
use dal.Lock.Ctkttkt
use dal.Lock.Ctkttkt.{read_home}

-- The upper ticket lock and the one of node `k`, both given back.
abbrev pub both_released : ℕ → Ctkttkt.Cohort → Ctkttkt.Cohort
both_released k m = record m {
  top_lock = record { request = m.top_lock.request; grant = u32 (m.top_lock.grant + 1) };
  local_locks =
      update m.local_locks k
        (record { request = (m.local_locks k).request; grant = u32 ((m.local_locks k).grant + 1) });
}

-- The upper lock passed on within node `k`.
abbrev pub passed_on : ℕ → Ctkttkt.Cohort → Ctkttkt.Cohort
passed_on k m = record m {
  top_grant = update m.top_grant k true;
  batch = update m.batch k (decrement (m.batch k));
  local_locks =
      update m.local_locks k
        (record { request = (m.local_locks k).request; grant = u32 ((m.local_locks k).grant + 1) });
}

-- What the whole release comes to.
abbrev pub released : ℕ → Ctkttkt.Cohort → Ctkttkt.Cohort
released k m =
    if (m.local_locks k).request == u32 ((m.local_locks k).grant + 1)
    then both_released k m
    else (if is_natural (decrement (m.batch k))
        then passed_on k m
        else both_released k (record m { batch = update m.batch k Ctkttkt.batch_count }))

module _ (node : ℕ → ℕ) (i k : ℕ) (m : Ctkttkt.Cohort) where
  abbrev new_grant : ℕ
  new_grant = u32 ((m.local_locks k).grant + 1)

  -- The release after its first two steps, by the test of `request`.
  tested : Bool → Ctkttkt.Cohort × Option Ctkttkt.Leave
  tested b = alone (Ctkttkt.leave node) i 5 m (
      some (
        if b
        then Ctkttkt.release_top k (m.local_locks k).grant Ticket.read_grant
        else Ctkttkt.count k (m.local_locks k).grant))

  -- And after the count.
  counted : Bool → Ctkttkt.Cohort × Option Ctkttkt.Leave
  counted b =
      alone (Ctkttkt.leave node) i 4 (record m { batch = update m.batch k (decrement (m.batch k)) })
        (some (
          if b
          then Ctkttkt.set_grant k (m.local_locks k).grant
          else Ctkttkt.reset k (m.local_locks k).grant))

  tested-last : tested true ≡ (both_released k m, none)
  unfolding tested alone Ctkttkt.leave Ticket.leave
  tested-last = refl

  counted-passes : counted true ≡ (passed_on k m, none)
  unfolding counted alone Ctkttkt.leave Ticket.leave
  counted-passes = refl

  counted-ends :
      counted false
      ≡ (both_released k (record m { batch = update m.batch k Ctkttkt.batch_count }), none)
  unfolding counted alone Ctkttkt.leave Ticket.leave
  counted-ends =
      ap (λ b. (both_released k (record m { batch = b }), none))
        (update_twice m.batch k (decrement (m.batch k)) Ctkttkt.batch_count)

  by_count : (b : Bool) → is_natural (decrement (m.batch k)) ≡ b → tested false ≡ counted b
  unfolding tested counted alone Ctkttkt.leave Ticket.leave
  by_count b e = ap counted e

  by_test :
      (b : Bool)
      → ((m.local_locks k).request == new_grant) ≡ b
      → m.top_home ≡ some k
      → alone (Ctkttkt.leave node) i 8 m (some read_home) ≡ tested b
  unfolding tested alone Ctkttkt.leave Ticket.leave
  by_test b t e =
      ap (λ o. alone (Ctkttkt.leave node) i 7 m (some (Ctkttkt.from_home o))) e ∙ ap tested t

  -- A release of the cohort lock ctkttkt.c, with node k as its home, that nobody interrupts is over after at most eight steps. With nobody else in the lock of its node it gives both locks back. Otherwise it counts down the batch of the node, and passes the upper lock on within the node, or, when the count goes below 0, sets the count to BATCH_COUNT and gives both locks back.
  pub ctkttkt_release :
      m.top_home ≡ some k → alone (Ctkttkt.leave node) i 8 m (some read_home) ≡ (released k m, none)
  ctkttkt_release e = elim (Bool-cases ((m.local_locks k).request == new_grant)) [
    | inl t ↦ by_test true t e ∙ tested-last ∙ rw t refl
    | inr t ↦ elim (Bool-cases (is_natural (decrement (m.batch k)))) [
      | inl b ↦ by_test false t e ∙ by_count true b ∙ counted-passes ∙ rw (t, b) refl
      | inr b ↦ by_test false t e ∙ by_count false b ∙ counted-ends ∙ rw (t, b) refl
    ]
  ]
