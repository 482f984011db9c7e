-- ===== src/Interpose/Safety.antt =====
-- What the threads of a program can rely on, in each state that they reach.
use dal.Prelude.{ℕ, ◌<◌, ◌≡◌, ◌≢◌, ◌↔◌, ap, sym, ◌∙◌, subst, false, some, List, All, arith}
use dal.Interpose.Table.{Clht}
use dal.Interpose.{max_threads, using, crashed, Choice}
use dal.Interpose.Ledger.{id_of, owns}
use dal.Interpose.Steps.{reached, reached-Inv}
use dal.Interpose.Sharing.{Knows, destroys, reached-Knows}

module _ (clht : Clht) (l : List (ℕ × Choice)) (keep : All (λ e. destroys e.1 ≡ false) l) where
  -- While no mutex is destroyed, two threads that use the locks of their mutexes use the same lock exactly if they use the same mutex, whoever created it, and that lock is neither freed nor destroyed.
  pub one_lock_per_mutex :
      (i j id id' x y k k' : ℕ)
      → (reached clht l).pc i ≡ using id x k
      → (reached clht l).pc j ≡ using id' y k'
      → ((x ≡ y) ↔ (k ≡ k'))
        × ((reached clht l).mem.freed k ≡ false)
        × ((reached clht l).mem.destroyed k ≡ false)
  one_lock_per_mutex i j id id' x y k k' ei ej =
      let gi =
        subst (Knows (clht.get (reached clht l).mem.table)) ei (reached-Knows clht l keep i) in
      let gj =
        subst (Knows (clht.get (reached clht l).mem.table)) ej (reached-Knows clht l keep j) in
      let v = reached-Inv clht l in
      let kept = (v.stored x k gi).1 in
      (
        (λ h. ground arith, λ h. v.once x y k gi (gj ∙ ap some (sym h))),
        (v.stored x k gi).1,
        (v.stored x k gi).2,
      )

  -- While no mutex is destroyed, no thread follows a NULL that the table gave it: a thread that loses the race to create a lock finds the winner's.
  pub no_null_lock : (i : ℕ) → (reached clht l).pc i ≢ crashed
  no_null_lock i e =
      absurd
        (cc (subst (Knows (clht.get (reached clht l).mem.table)) e (reached-Knows clht l keep i)))

module _ (clht : Clht) (l : List (ℕ × Choice)) where
  -- Two threads in calls on locks have different numbers, below MAX_THREADS: each has a context of its own in the array of a lock.
  pub contexts_differ :
      (i j id id' x y k k' : ℕ)
      → i ≢ j
      → (reached clht l).pc i ≡ using id x k
      → (reached clht l).pc j ≡ using id' y k'
      → (id ≢ id') × (id < max_threads) × (id' < max_threads)
  contexts_differ i j id id' x y k k' differ ei ej =
      let v = reached-Inv clht l in
      let ci = ap id_of ei in
      let cj = ap id_of ej in
      (v.ids_differ i j id id' differ ci cj, (v.ids i id ci).1, (v.ids j id' cj).1)

  -- A thread that is about to free a lock, after a lost race or a destroy, is the only one that has it in hand; the lock is in no entry of the table, and was not freed before.
  pub freed_once :
      (i k : ℕ)
      → owns ((reached clht l).pc i) ≡ some k
      → ((reached clht l).mem.freed k ≡ false)
        × ((x : ℕ) → clht.get (reached clht l).mem.table x ≢ some k)
        × ((j : ℕ) → owns ((reached clht l).pc j) ≡ some k → i ≡ j)
  freed_once i k e =
      let v = reached-Inv clht l in
      ((v.owned i k e).1, λ x. v.apart i k x e, λ j h. v.sole i j k e h)
