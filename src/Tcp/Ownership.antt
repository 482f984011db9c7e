-- ===== src/Tcp/Ownership.antt =====
-- Which server thread has the mutex.
use dal.Prelude.{
  ℕ, ◌≡◌, refl, ap, ◌∙◌, true, false, none, some, update, arith, Bool-cases, inl, inr,
}
use dal.Posix.{PosixMutex, is_free}
use dal.Tcp.Service.{
  Server, looping, receiving, locking, granting, awaiting, confirming, unlocking, stopped,
  Connection, Memory, server_step,
}
use dal.Tcp.Exclusion.{has_mutex, receive_lem, await_lem, looped_free, free_none}

module _ (posix : PosixMutex) where
  open posix use {State, fresh, owner, taken, freed, owner-taken, owner-freed}

  -- A server thread has the mutex exactly where its place in the code says so.
  pub record Owns (m : Memory State) (pc : ℕ → Connection) : Type 0 where
    pub mine : (j : ℕ) → has_mutex (pc j).server ≡ true → owner m.mutex ≡ some j
    pub theirs : (j : ℕ) → owner m.mutex ≡ some j → has_mutex (pc j).server ≡ true

  module _ {m : Memory State} {pc : ℕ → Connection} (v : Owns m pc) (i : ℕ) where
    pub keep :
        (m' : Memory State) (c' : Connection)
        → m'.mutex ≡ m.mutex
        → has_mutex c'.server ≡ has_mutex (pc i).server
        → Owns m' (update pc i c')
    keep m' c' same place = record {
      mine = λ j h. ground (arith, v.mine j, ap owner same);
      theirs = λ j h. ground (arith, v.theirs j, ap owner same);
    }

    take :
        (c' : Connection)
        → owner m.mutex ≡ none
        → has_mutex c'.server ≡ true
        → Owns (record m { mutex = taken i m.mutex }) (update pc i c')
    take c' free place = record {
      mine = λ j h. ground (arith, v.mine j, owner-taken i m.mutex);
      theirs = λ j h. ground (arith, v.theirs j, owner-taken i m.mutex);
    }

    give :
        (c' : Connection)
        → has_mutex (pc i).server ≡ true
        → has_mutex c'.server ≡ false
        → Owns (record m { mutex = freed i m.mutex }) (update pc i c')
    give c' place out = record {
      mine = λ j h. ground (arith, v.mine i, v.mine j, owner-freed i m.mutex);
      theirs = λ j h. ground (arith, v.mine i, v.theirs j, owner-freed i m.mutex);
    }

    pub server_step-Owns :
        (s : Server)
        → (pc i).server ≡ s
        → Owns (server_step posix i m (pc i) s).0 (update pc i (server_step posix i m (pc i) s).1)
    unfolding server_step
    server_step-Owns looping e = keep _ _ refl (looped_free posix m.bench_running ∙ rw e refl)
    server_step-Owns receiving e =
        let r = receive_lem posix m (pc i).up (pc i) in keep _ _ r.1 (r.2 (rw e refl) ∙ rw e refl)
    server_step-Owns locking e = elim (Bool-cases (is_free (owner m.mutex))) [
      | inl free ↦ rw free (take _ (free_none (owner m.mutex) free) refl)
      | inr used ↦ rw used (keep _ _ refl refl)
    ]
    server_step-Owns granting e = keep _ _ refl (rw e refl)
    server_step-Owns awaiting e =
        keep _ _ refl ((await_lem posix (pc i).up (pc i) (rw e refl)).1 ∙ rw e refl)
    server_step-Owns confirming e = keep _ _ refl (rw e refl)
    server_step-Owns unlocking e = give _ (rw e refl) refl
    server_step-Owns stopped e = keep _ _ refl refl
