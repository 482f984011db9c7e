-- ===== src/Interpose/Leak.antt =====
-- A lock that neither the table nor a thread can bring back keeps its inner lock for good.
use dal.Prelude.{
  ℕ, ◌<◌, ◌≡◌, ◌≢◌, refl, Bool, true, false, Option, none, some, List, ◌++◌, arith, update, leb,
  if◌then◌else◌, Bool-cases, Option-cases, inl, inr,
}
use dal.Interleave.{run_keeps, run-append}
use dal.Interpose.Table.{Clht}
use dal.Interpose.{
  max_threads, Process, Pc, starting, running, using, getting, creating, putting, losing, regetting,
  removing, destroying, freeing, crashed, Choice, call_use, call_init, call_destroy, proceed,
  Purpose, to_use, to_init, created, after_get, after_reget, after_remove, draw_id, advance, step,
  loaded,
}
use dal.Interpose.Ledger.{Inv}
use dal.Interpose.Steps.{reached, reached-Inv}

-- What a thread is about to insert or to destroy.
abbrev handles : Pc → Option ℕ
handles (putting id x k u) = some k
handles (destroying id k) = some k
handles _ = none

record Lost (clht : Clht) (k : ℕ) (m : Process clht.State) (pc : ℕ → Pc) : Type 0 where
  old : k < m.made
  whole : m.destroyed k ≡ false
  absent : (x : ℕ) → clht.get m.table x ≢ some k
  unhandled : (i : ℕ) → handles (pc i) ≢ some k

module _ (clht : Clht) (k : ℕ) where
  open clht use {State, get, put, remove}

  module _ (m : Process State) (pc : ℕ → Pc) (i : ℕ) (lost : Lost clht k m pc) where
    open lost use {old, whole, absent, unhandled}

    stay : (p' : Pc) → handles p' ≡ none → Lost clht k m (update pc i p')
    stay p' h = record {
      old = old;
      whole = whole;
      absent = absent;
      unhandled = λ j e. ground (arith, unhandled j);
    }

    draw : Lost clht k (draw_id clht m).0 (update pc i (draw_id clht m).1)
    unfolding draw_id
    draw = elim (Bool-cases (leb max_threads m.last_thread_id)) [
      | inl t ↦ rw t (record {
        old = old;
        whole = whole;
        absent = absent;
        unhandled = λ j e. ground (arith, unhandled j);
      })
      | inr t ↦ rw t (record {
        old = old;
        whole = whole;
        absent = absent;
        unhandled = λ j e. ground (arith, unhandled j);
      })
    ]

    put_it :
        (id x w : ℕ) (u : Purpose)
        → pc i ≡ putting id x w u
        → Lost clht k
            (record m { table = (put m.table x w).0 })
            (update pc i (if (put m.table x w).1 then created id x w u else losing id x w u))
    put_it id x w u e = elim (Option-cases (get m.table x)) [
      | inl free ↦ rw (clht.put-done m.table x w free) (record {
        old = old;
        whole = whole;
        absent = λ y h. ground (arith, absent y, unhandled i, clht.get-put m.table x w free y);
        unhandled = λ j h. ground (arith, unhandled j, u);
      })
      | inr (w', there) ↦ rw (clht.put-there m.table x w w' there) (record {
        old = old;
        whole = whole;
        absent = λ y h. ground (arith, absent y, clht.get-put-there m.table x w w' there y);
        unhandled = λ j h. ground (arith, unhandled j);
      })
    ]

    take_out :
        (id x : ℕ) (o : Option ℕ)
        → get m.table x ≡ o
        → Lost clht k (record m { table = (remove m.table x).0 }) (update pc i (after_remove id o))
    take_out id x o found = record {
      old = old;
      whole = whole;
      absent = λ y h. ground (arith, absent y, clht.get-remove m.table x y);
      unhandled = λ j h. ground (arith, unhandled j, absent x, o);
    }

    Lost-advance :
        (c : Choice) (p : Pc)
        → pc i ≡ p
        → Lost clht k (advance clht c m p).0 (update pc i (advance clht c m p).1)
    unfolding advance
    Lost-advance c starting e = draw
    Lost-advance (call_use x) (running id) e = stay _ refl
    Lost-advance (call_init x) (running id) e = stay _ refl
    Lost-advance (call_destroy x) (running id) e = stay _ refl
    Lost-advance proceed (running id) e = stay _ refl
    Lost-advance c (using id x w) e = stay _ refl
    Lost-advance c (getting id x) e = stay _ (got id x (get m.table x))
      where
        got : (id x : ℕ) (o : Option ℕ) → handles (after_get id x o) ≡ none
        got id x none = refl
        got id x (some w) = refl
    Lost-advance c (creating id x u) e = record {
      old = omega (arith, old);
      whole = whole;
      absent = absent;
      unhandled = λ j h. ground (arith, unhandled j, old);
    }
    Lost-advance c (putting id x w u) e = put_it id x w u e
    Lost-advance c (losing id x w u) e = record {
      old = old;
      whole = whole;
      absent = absent;
      unhandled = λ j h. ground (arith, unhandled j);
    }
    Lost-advance c (regetting id x u) e = stay _ (regot id x (get m.table x) u)
      where
        regot : (id x : ℕ) (o : Option ℕ) (u : Purpose) → handles (after_reget id x o u) ≡ none
        regot id x none to_use = refl
        regot id x none to_init = refl
        regot id x (some w) to_use = refl
        regot id x (some w) to_init = refl
    Lost-advance c (removing id x) e =
        rw (clht.remove-found m.table x) (take_out id x (get m.table x) refl)
    Lost-advance c (destroying id w) e = record {
      old = old;
      whole = ground (arith, whole, unhandled i);
      absent = absent;
      unhandled = λ j h. ground (arith, unhandled j);
    }
    Lost-advance c (freeing id w) e = record {
      old = old;
      whole = whole;
      absent = absent;
      unhandled = λ j h. ground (arith, unhandled j);
    }
    Lost-advance c crashed e = stay _ refl

    gated :
        (c : Choice) (b : Bool)
        → Lost clht k
            (if b then (m, pc i) else advance clht c m (pc i)).0
            (update pc i (if b then (m, pc i) else advance clht c m (pc i)).1)
    gated c true = record {
      old = old;
      whole = whole;
      absent = absent;
      unhandled = λ j h. ground (arith, unhandled j);
    }
    gated c false = Lost-advance c (pc i) refl

    Lost-step :
        (c : Choice)
        → Lost clht k (step clht i c m (pc i)).0 (update pc i (step clht i c m (pc i)).1)
    unfolding step
    Lost-step c = gated c m.exited

  -- A thread that loses the race to create a lock frees the lock that it made without destroying the inner lock, and no later step of any thread destroys it: the inner lock, and the pthread mutex in it, leak.
  pub lost_lock_stays :
      (l l' : List (ℕ × Choice)) (i id x : ℕ) (u : Purpose)
      → (reached clht l).pc i ≡ losing id x k u
      → (reached clht (l ++ l')).mem.destroyed k ≡ false
  lost_lock_stays l l' i id x u e =
      rw (run-append (step clht) l l' (record { mem = loaded clht; pc = λ j. starting })) (
        Lost.whole (
          run_keeps (step clht) (Lost clht k) (λ j c m pc h. Lost-step m pc j h c) l'
            (reached clht l) at_first))
    where
      v : Inv clht (reached clht l).mem (reached clht l).pc
      v = reached-Inv clht l

      at_first : Lost clht k (reached clht l).mem (reached clht l).pc
      at_first = record {
        old = (v.owned i k (rw e refl)).0;
        whole = v.whole i k (rw e refl);
        absent = λ y. v.apart i k y (rw e refl);
        unhandled = λ j h. ground (arith, v.sole i j k);
      }
