-- ===== src/Interpose/Steps.antt =====
-- Every step keeps the ledger.
use dal.Prelude.{
  ℕ, ◌≡◌, refl, Bool, true, false, Option, none, some, List, arith, update, leb, leb→le,
  update_same, if◌then◌else◌, Bool-cases, Option-cases, inl, inr,
}
use dal.Interleave.{System, run, run_keeps}
use dal.Interpose.Table.{Clht}
use dal.Interpose.{
  max_threads, Process, Pc, starting, running, using, getting, creating, putting, losing, regetting,
  removing, destroying, freeing, crashed, Choice, call_use, call_init, call_destroy, proceed,
  Purpose, to_use, to_init, created, after_get, after_reget, draw_id, advance, step, loaded,
}
use dal.Interpose.Ledger.{Inv}
use dal.Interpose.Moves.{start, walk, numbered, refused, make}
use dal.Interpose.Entries.{insert, lose, take_out, destroy, release}

module _ (clht : Clht) where
  open clht use {State, get, put, remove}

  module _ {m : Process State} {pc : ℕ → Pc} (v : Inv clht m pc) (i : ℕ) where
    draw :
        pc i ≡ starting
        → m.exited ≡ false
        → Inv clht (draw_id clht m).0 (update pc i (draw_id clht m).1)
    unfolding draw_id
    draw e on = elim (Bool-cases (leb max_threads m.last_thread_id)) [
      | inl t ↦ rw t (refused clht v i e on (leb→le max_threads m.last_thread_id t))
      | inr t ↦ rw t (numbered clht v i e on (ground arith))
    ]

    put_it :
        (id x k : ℕ) (u : Purpose)
        → pc i ≡ putting id x k u
        → Inv clht
            (record m { table = (put m.table x k).0 })
            (update pc i (if (put m.table x k).1 then created id x k u else losing id x k u))
    put_it id x k u e = elim (Option-cases (get m.table x)) [
      | inl free ↦ rw (clht.put-done m.table x k free) (insert clht v i id x k u e free)
      | inr (w, there) ↦ rw (clht.put-there m.table x k w there) (lose clht v i id x k w u e there)
    ]

    got :
        (id x : ℕ) (o : Option ℕ)
        → pc i ≡ getting id x
        → Inv clht m (update pc i (after_get id x o))
    got id x none e = walk clht v i _ (inr (rw e refl)) refl refl
    got id x (some k) e = walk clht v i _ (inr (rw e refl)) refl refl

    regot :
        (id x : ℕ) (o : Option ℕ) (u : Purpose)
        → pc i ≡ regetting id x u
        → Inv clht m (update pc i (after_reget id x o u))
    regot id x none to_use e = walk clht v i _ (inl refl) refl refl
    regot id x none to_init e = walk clht v i _ (inr (rw e refl)) refl refl
    regot id x (some k) to_use e = walk clht v i _ (inr (rw e refl)) refl refl
    regot id x (some k) to_init e = walk clht v i _ (inr (rw e refl)) refl refl

    Inv-advance :
        (c : Choice) (p : Pc)
        → pc i ≡ p
        → m.exited ≡ false
        → Inv clht (advance clht c m p).0 (update pc i (advance clht c m p).1)
    unfolding advance
    Inv-advance c starting e on = draw e on
    Inv-advance (call_use x) (running id) e on = walk clht v i _ (inr (rw e refl)) refl refl
    Inv-advance (call_init x) (running id) e on = walk clht v i _ (inr (rw e refl)) refl refl
    Inv-advance (call_destroy x) (running id) e on = walk clht v i _ (inr (rw e refl)) refl refl
    Inv-advance proceed (running id) e on = walk clht v i _ (inr (rw e refl)) refl refl
    Inv-advance c (using id x k) e on = walk clht v i _ (inr (rw e refl)) refl refl
    Inv-advance c (getting id x) e on = got id x (get m.table x) e
    Inv-advance c (creating id x u) e on = make clht v i id x u e
    Inv-advance c (putting id x k u) e on = put_it id x k u e
    Inv-advance c (losing id x k u) e on = release clht v i k _ (rw e refl) (rw e refl) refl refl
    Inv-advance c (regetting id x u) e on = regot id x (get m.table x) u e
    Inv-advance c (removing id x) e on =
        rw (clht.remove-found m.table x) (take_out clht v i id x (get m.table x) e refl)
    Inv-advance c (destroying id k) e on = destroy clht v i id k e
    Inv-advance c (freeing id k) e on = release clht v i k _ (rw e refl) (rw e refl) refl refl
    Inv-advance c crashed e on = walk clht v i _ (inl refl) refl refl

    gated :
        (c : Choice) (b : Bool)
        → m.exited ≡ b
        → Inv clht
            (if b then (m, pc i) else advance clht c m (pc i)).0
            (update pc i (if b then (m, pc i) else advance clht c m (pc i)).1)
    gated c true off = rw (update_same pc i (pc i) refl) v
    gated c false on = Inv-advance c (pc i) refl on

    pub Inv-step :
        (c : Choice) → Inv clht (step clht i c m (pc i)).0 (update pc i (step clht i c m (pc i)).1)
    unfolding step
    Inv-step c = gated c m.exited refl

  -- Where the library's threads are after a schedule.
  abbrev pub reached : List (ℕ × Choice) → System (Process State) Pc
  reached l = run (step clht) l (record { mem = loaded clht; pc = λ i. starting })

  pub reached-Inv : (l : List (ℕ × Choice)) → Inv clht (reached l).mem (reached l).pc
  reached-Inv l = run_keeps (step clht) (Inv clht) (λ i c m pc v. Inv-step v i c) l _ (start clht)
