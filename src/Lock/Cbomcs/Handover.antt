-- ===== src/Lock/Cbomcs/Handover.antt =====
-- Each step of cbomcs.c keeps a thread queued in the node whose flag is set.
use dal.Prelude.{
  ℕ, ◌≡◌, refl, false, Option, none, some, update, Bool-cases, inl, inr, arith, subst, sym,
}
use dal.Lock.Raw.{
  Raw, Outcome, pending, acquired, busy, idle, polling, held, leaving, settle, settle_leave,
}
use dal.Lock.Cohort.{Mode, decrement, is_natural}
use dal.Lock.Mcs
use dal.Lock.Mcs.{Nodes, is_node}
use dal.Lock.Mcs.Tail.{poll-tail, leave-tail, is_node-other}
use dal.Lock.Backoff
use dal.Lock.Cbomcs.{
  Cohort, Poll, at_local, look, clear, at_top, set_home, give_up, Leave, read_home, test_tail,
  count, set_grant, pass_local, reset, drop_local, store_top, poll, leave, after_local, after_top,
  after_give_up, from_home, after_pass, after_drop, top_entry,
}
use dal.Lock.Cbomcs.Places.{Inv, AtOwn}
use dal.Lock.Cbomcs.Kept.{
  Kept, hands_on, past_flag, served-tail, calm, requeued, left, unflagged, flagged,
}

module _ {node : ℕ → ℕ} {m : Cohort} {pc : ℕ → Raw Poll Leave} (v : Inv node m pc)
    (w : Kept node m.local_locks m.top_grant pc) (i : ℕ) where
  abbrev KeptAt : Cohort → Raw Poll Leave → Type 0
  KeptAt m' p' = Kept node m'.local_locks m'.top_grant (update pc i p')

  -- A step that neither decides to pass the lock on nor relies on the flag.
  pub quietly :
      (p' : Raw Poll Leave)
      → hands_on p' ≡ false
      → past_flag p' ≡ false
      → Kept node m.local_locks m.top_grant (update pc i p')
  quietly p' h f = calm v w i p' (λ e. cc) (λ e. cc)

  local_out :
      (mode : Mode) (o : Outcome Mcs.Poll)
      → (hands_on (settle (after_local mode o)) ≡ false)
        × (past_flag (settle (after_local mode o)) ≡ false)
  local_out mode (pending q) = (refl, refl)
  local_out mode acquired = (refl, refl)
  local_out mode busy = (refl, refl)

  top_out : (o : Outcome Backoff.Poll) → hands_on (settle (after_top o)) ≡ false
  top_out (pending q) = refl
  top_out acquired = refl
  top_out busy = refl

  give_up_out : (o : Option Mcs.Leave) → hands_on (settle (after_give_up o)) ≡ false
  give_up_out none = refl
  give_up_out (some r) = refl

  pub Kept-poll :
      (q : Poll) → pc i ≡ polling q → KeptAt (poll node i m q).0 (settle (poll node i m q).1)
  unfolding poll
  Kept-poll (at_local mode q) e =
      let o = local_out mode (Mcs.poll i (m.local_locks (node i)) q).1 in
      requeued v w i _ _ (poll-tail i (m.local_locks (node i)) q) (λ h. cc) (λ h. cc)
  Kept-poll (look mode) e = elim (Bool-cases (m.top_grant (node i))) [
    | inl t ↦ rw t (quietly (polling clear) refl refl)
    | inr t ↦ rw t (calm v w i (polling (at_top (top_entry mode))) (λ h. cc) (λ h. t))
  ]
  Kept-poll clear e = unflagged v w i
  Kept-poll (at_top q) e =
      let o = top_out (Backoff.poll i m.top_word q).1 in
      calm v w i _ (λ h. cc) (λ h. w.passed i (rw e refl))
  Kept-poll set_home e = quietly held refl refl
  Kept-poll (give_up r) e = left v w i _ _ (rw e refl) (w.passed i (rw e refl)) (give_up_out _)

  after_pass_out :
      (k : ℕ) (o : Option Mcs.Leave) → past_flag (settle_leave (after_pass k o)) ≡ false
  after_pass_out k none = refl
  after_pass_out k (some r) = refl

  after_drop_out : (k : ℕ) (o : Option Mcs.Leave) → hands_on (leaving (after_drop k o)) ≡ false
  after_drop_out k none = refl
  after_drop_out k (some r) = refl

  from_home_out : (o : Option ℕ) → hands_on (leaving (from_home o)) ≡ false
  from_home_out none = refl
  from_home_out (some k) = refl

  -- The steps that work on node `k`, which is the thread's own.
  AtNode : (ℕ → Leave) → ℕ → Type 0
  AtNode r k =
      pc i ≡ leaving (r k) → KeptAt (leave node i m (r k)).0 (settle_leave (leave node i m (r k)).1)

  at_own : (r : ℕ → Leave) (k : ℕ) → k ≡ node i → AtNode r (node i) → AtNode r k
  at_own r k at go = subst (AtNode r) (sym at) go

  tested : AtNode test_tail (node i)
  unfolding AtNode leave
  tested e = elim (Bool-cases (is_node i (m.local_locks (node i)).tail)) [
    | inl t ↦ rw t (quietly (leaving (drop_local (node i) Mcs.read_next)) refl refl)
    | inr t ↦ rw t (
        calm v w i (leaving (count (node i)))
          (λ h. (served-tail v w i (rw e refl), is_node-other i _ t)) (λ h. cc))
  ]

  counted : AtNode count (node i)
  unfolding AtNode leave
  counted e = elim (Bool-cases (is_natural (decrement (m.batch (node i))))) [
    | inl t ↦
        rw t (calm v w i (leaving (set_grant (node i))) (λ h. w.behind i (rw e refl)) (λ h. cc))
    | inr t ↦ rw t (quietly (leaving (reset (node i))) refl refl)
  ]

  passing : (r : Mcs.Leave) → AtNode (λ k. pass_local k r) (node i)
  unfolding AtNode leave
  passing r e =
      let f = w.behind i (rw e refl) in
      let same = leave-tail i (m.local_locks (node i)) r f.1 in
      let o = after_pass_out (node i) (Mcs.leave i (m.local_locks (node i)) r).1 in
      requeued v w i _ _ (inl same) (λ h. (rw same f.0, rw same f.1)) (λ h. cc)

  dropping : (r : Mcs.Leave) → AtNode (λ k. drop_local k r) (node i)
  unfolding AtNode leave
  dropping r e =
      left v w i _ _ (rw e refl) (v.top.apart i (node i) (rw e refl)) (after_drop_out (node i) _)

  own : (p : Raw Poll Leave) → pc i ≡ p → AtOwn (node i) p
  own p e = subst (AtOwn (node i)) e (v.top.own i)

  pub Kept-leave :
      (r : Leave)
      → pc i ≡ leaving r
      → KeptAt (leave node i m r).0 (settle_leave (leave node i m r).1)
  unfolding AtNode leave
  Kept-leave read_home e = calm v w i _ (λ h. ground (arith, from_home_out m.top_home)) (λ h. cc)
  Kept-leave (test_tail k) e = at_own test_tail k (own _ e) tested e
  Kept-leave (count k) e = at_own count k (own _ e) counted e
  Kept-leave (set_grant k) e =
      at_own set_grant k (own _ e) (λ e. flagged v w i Mcs.read_next (rw e refl)) e
  Kept-leave (pass_local k r) e = at_own (λ k. pass_local k r) k (own _ e) (passing r) e
  Kept-leave (reset k) e = quietly (leaving (drop_local k Mcs.read_next)) refl refl
  Kept-leave (drop_local k r) e = at_own (λ k. drop_local k r) k (own _ e) (dropping r) e
  Kept-leave store_top e = quietly idle refl refl
