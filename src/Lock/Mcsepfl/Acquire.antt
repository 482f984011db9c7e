-- ===== src/Lock/Mcsepfl/Acquire.antt =====
-- The steps of an acquire of mcsepfl.c are steps of mcs.c on nodes that are marked a little earlier.
use dal.Prelude.{
  ℕ, ◌≡◌, ◌≢◌, ◌⊎◌, refl, ap, sym, Bool, true, false, Option, none, some, arith, update, map-update,
  update_same, ◌==◌, if◌then◌else◌, Bool-cases, inl, inr, ==_refl, subst, ◌∙◌, update_twice,
}
use dal.Lock.Raw.{Raw, pending, acquired, idle, polling, held, leaving, settle}
use dal.Lock.Word.{locked, unlocked}
use dal.Lock.Mcs
use dal.Lock.Mcs.{Nodes, Leave, read_next, cas_tail, wait_next, load_next, wake, is_node}
use dal.Lock.Mcs.Queue
use dal.Lock.Mcs.Steps as McsSteps
use dal.Lock.Mcs.Steps.{mcs}
use dal.Lock.Mcsepfl.{
  Poll, clear_next, exchange, mark, link, wait, try_next, try_cas, after_exchange, try_tail, poll,
}

-- The thread of mcs.c.
abbrev pub back : Raw Poll Leave → Raw Mcs.Poll Leave
back idle = idle
back (polling clear_next) = polling Mcs.clear_next
back (polling exchange) = polling Mcs.enqueue
back (polling (mark p)) = polling (Mcs.link p)
back (polling (link p)) = polling (Mcs.link p)
back (polling wait) = polling Mcs.wait
back (polling try_next) = polling Mcs.try_next
back (polling try_cas) = polling Mcs.try_cas
back held = held
back (leaving r) = leaving r

-- A thread that has marked its node, and waits for the mark to go.
abbrev pub marked : Raw Poll Leave → Bool
marked (polling (link p)) = true
marked (polling wait) = true
marked _ = false

-- `spin` has the marks as mcs.c would have them.
pub record Inv (m : Nodes) (pc : ℕ → Raw Poll Leave) : Type 0 where
  pub spin : ℕ → ℕ
  pub queue : Queue.Inv (record m { spin = spin }) (λ j. back (pc j))
  pub agrees : (j : ℕ) → marked (pc j) ≡ true → m.spin j ≡ spin j

module _ {m : Nodes} {pc : ℕ → Raw Poll Leave} (v : Inv m pc) (i : ℕ) where
  open v use {spin, queue, agrees}

  abbrev seen_as : ℕ → Raw Mcs.Poll Leave
  seen_as j = back (pc j)

  pub keep :
      (m' : Nodes) (spin' : ℕ → ℕ) (p' : Raw Poll Leave) (p : Raw Mcs.Poll Leave)
      → back p' ≡ p
      → Queue.Inv (record m' { spin = spin' }) (update seen_as i p)
      → (marked p' ≡ true → m'.spin i ≡ spin' i)
      → ((j : ℕ) → i ≢ j → marked (pc j) ≡ true → m'.spin j ≡ spin' j)
      → Inv m' (update pc i p')
  keep m' spin' p' p e q mine others = record {
    spin = spin';
    queue = rw (map-update back pc i p', e) q;
    agrees = λ j h. elim (Bool-cases (i == j)) [
      | inl s ↦ ground (arith, mine)
      | inr s ↦ ground (arith, others j)
    ];
  }

  -- The mark that mcs.c has set by now.
  prepare :
      (p' : Raw Poll Leave)
      → marked p' ≡ false
      → Queue.Inv
          (record m { next = update m.next i none; spin = update spin i locked })
          (update seen_as i (back p'))
      → Inv (record m { next = update m.next i none }) (update pc i p')
  prepare p' out q =
      keep _ (update spin i locked) p' (back p') refl q (λ h. cc)
        (λ j d h. ground (arith, agrees j))

  -- mcs.c clears its node in two steps.
  clear_both :
      (q next : Mcs.Poll) (p' : Raw Poll Leave)
      → back p' ≡ polling next
      → marked p' ≡ false
      → Queue.Inv
          (record m { next = update m.next i none; spin = spin })
          (update seen_as i (polling q))
      → (Queue.Inv
            (record m { next = update m.next i none; spin = spin })
            (update seen_as i (polling q))
          → (update seen_as i (polling q) i ≡ polling q)
          → Queue.Inv
              (record m { next = update m.next i none; spin = update spin i locked })
              (update (update seen_as i (polling q)) i (polling next)))
      → Inv (record m { next = update m.next i none }) (update pc i p')
  clear_both q next p' e out half second = prepare p' out (
      subst (Queue.Inv (record m { next = update m.next i none; spin = update spin i locked }))
        (update_twice seen_as i (polling q) (polling next) ∙ ap (update seen_as i) (sym e))
        (second half (rw (==_refl i) refl)))

  exchanged :
      (t : Option ℕ)
      → m.tail ≡ t
      → Queue.Inv
          (record m { tail = some i; spin = spin })
          (update seen_as i (settle (Mcs.after_swap t)))
      → Inv (record m { tail = some i }) (update pc i (settle (after_exchange t)))
  exchanged none e q = keep _ spin held held refl q (λ h. cc) (λ j d h. agrees j h)
  exchanged (some p) e q = keep _ spin (polling (mark p)) _ refl q (λ h. cc) (λ j d h. agrees j h)

  tried :
      (t : Option ℕ)
      → m.tail ≡ t
      → Queue.Inv
          (Mcs.try_tail (record m { spin = spin }) i t).0
          (update seen_as i (settle (Mcs.try_tail (record m { spin = spin }) i t).1))
      → Inv (try_tail m i t).0 (update pc i (settle (try_tail m i t).1))
  tried none e q = keep _ spin held held refl q (λ h. cc) (λ j d h. agrees j h)
  tried (some p) e q = keep m spin idle idle refl q (λ h. cc) (λ j d h. agrees j h)

  -- A thread that waits has its mark, or has been woken.
  two_marks : pc i ≡ polling wait → (m.spin i ≡ locked) ⊎ (m.spin i ≡ unlocked)
  two_marks e = elim (Bool-cases (queue.pos i == queue.first)) [
    | inl s ↦ inr (ground (arith, agrees i, queue.woken i))
    | inr s ↦ inl (ground (arith, agrees i, queue.spins i))
  ]

  waited :
      pc i ≡ polling wait
      → Inv m (update pc i (settle (if m.spin i == unlocked then acquired else pending wait)))
  unfolding Mcs.poll
  waited e =
      let same : m.spin i ≡ spin i = agrees i (rw e refl) in
      let next = McsSteps.Inv-poll queue i Mcs.wait (rw e refl) in
      elim (two_marks e) [
        | inl h ↦ rw h (
            keep m spin (polling wait) (polling Mcs.wait) refl (rw (sym same ∙ h) at next)
              (λ _. same) (λ j d. agrees j))
        | inr h ↦
            rw h
              (keep m spin held held refl (rw (sym same ∙ h) at next) (λ h. cc) (λ j d. agrees j))
      ]

  marking :
      (p : ℕ)
      → pc i ≡ polling (mark p)
      → Inv (record m { spin = update m.spin i locked }) (update pc i (polling (link p)))
  marking p e =
      keep _ spin (polling (link p)) (polling (Mcs.link p)) refl
        (subst (Queue.Inv (record m { spin = spin }))
          (sym (update_same seen_as i (polling (Mcs.link p)) (rw e refl))) queue)
        (λ h. rw (==_refl i) (sym (queue.spins i (rw e refl) (queue.preds i p (rw e refl)).0)))
        (λ j d h. ground (arith, agrees j))

  pub Inv-poll :
      (q : Poll) → pc i ≡ polling q → Inv (poll i m q).0 (update pc i (settle (poll i m q).1))
  unfolding poll Mcs.poll
  Inv-poll clear_next e =
      clear_both Mcs.clear_spin Mcs.enqueue (polling exchange) refl refl
        (McsSteps.Inv-poll queue i Mcs.clear_next (rw e refl))
        (λ half at. McsSteps.Inv-poll half i Mcs.clear_spin at)
  Inv-poll exchange e = exchanged m.tail refl (McsSteps.Inv-poll queue i Mcs.enqueue (rw e refl))
  Inv-poll (mark p) e = marking p e
  Inv-poll (link p) e =
      keep _ spin (polling wait) _ refl (McsSteps.Inv-poll queue i (Mcs.link p) (rw e refl))
        (λ h. agrees i (rw e refl)) (λ j d h. agrees j h)
  Inv-poll wait e = waited e
  Inv-poll try_next e =
      clear_both Mcs.try_spin Mcs.try_cas (polling try_cas) refl refl
        (McsSteps.Inv-poll queue i Mcs.try_next (rw e refl))
        (λ half at. McsSteps.Inv-poll half i Mcs.try_spin at)
  Inv-poll try_cas e = tried m.tail refl (McsSteps.Inv-poll queue i Mcs.try_cas (rw e refl))
