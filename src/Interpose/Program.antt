-- ===== src/Interpose/Program.antt =====
-- The interposed functions with the locks behind them (litl2/src/interpose.c with any of the lock
-- files that Lock models): a call looks its lock up, and runs on that lock as the thread with the
-- caller's number, in the context `lock_node[cur_thread_id]` (`get_node`).
use dal.Prelude.{
  ℕ, ◌<◌, ◌≡◌, ◌≢◌, refl, Bool, true, false, some, List, update, update_same, ap, if◌then◌else◌,
  Bool-cases, inl, inr, ◌==◌,
}
use dal.Interleave.{System, run, run_keeps}
use dal.Posix.{PosixMutex}
use dal.Lock.Raw.{RawLock, held}
use dal.Lock.Wrapper
use dal.Lock.Wrapper.{Memory, raw_of, critical, outside, zero_ret}
use dal.Lock.Invariant.{SysInv, SysInv-step, SysInv-start}
use dal.Interpose
use dal.Interpose.{max_threads, Process, Pc, using, starting, loaded}
use dal.Interpose.Table.{Clht}
use dal.Interpose.Ledger.{id_of, Inv}
use dal.Interpose.Moves.{start}
use dal.Interpose.Steps.{Inv-step}

-- A thread makes its next step outside the locks, or in the lock that it is using.
pub data Event : Type 0 where
  outer : Interpose.Choice → Event
  inner : Wrapper.Choice → Event

-- The call on the lock has returned.
abbrev pub returned : {Q R : Type 0} → Wrapper.Pc Q R → Bool
returned (outside r) = true
returned critical = true
returned _ = false

module _ (clht : Clht) (lock : RawLock) (posix : PosixMutex) where
  -- Lock `k` is in the state in which `lock_mutex_create` leaves it until it is used, and `place k
  -- id` is where the thread with number `id` stands in it.
  pub record World : Type 0 where
    pub process : Process clht.State
    pub locks : ℕ → Memory lock.Mem posix.State
    pub place : ℕ → ℕ → Wrapper.Pc lock.Poll lock.Leave

  abbrev may_return : World → Pc → Bool
  may_return w (using id x k) = returned (w.place k id)
  may_return w p = true

  -- A step of the thread with number `id` in lock `k`.
  abbrev pub in_lock : ℕ → ℕ → Wrapper.Choice → World → World
  in_lock id k c w = record w {
    locks = update w.locks k (Wrapper.step lock posix id c (w.locks k) (w.place k id)).0;
    place =
        update w.place k
          (update (w.place k) id (Wrapper.step lock posix id c (w.locks k) (w.place k id)).1);
  }

  abbrev pub out_step : ℕ → Interpose.Choice → World → Pc → World × Pc
  out_step i c w p = (
    record w { process = (Interpose.step clht i c w.process p).0 },
    (Interpose.step clht i c w.process p).1,
  )

  unfoldable pub work : ℕ → Event → World → Pc → World × Pc
  work i (outer c) w p = if may_return w p then out_step i c w p else (w, p)
  work i (inner c) w (using id x k) =
      (if w.process.exited then w else in_lock id k c w, using id x k)
  work i (inner c) w p = (w, p)

  abbrev first_world : World
  first_world = record {
    process = loaded clht;
    locks = λ k. Wrapper.created lock posix;
    place = λ k id. outside zero_ret;
  }

  abbrev pub worked : List (ℕ × Event) → System World Pc
  worked l = run work l (record { mem = first_world; pc = λ i. starting })

  record Whole (w : World) (pc : ℕ → Pc) : Type 0 where
    ledger : Inv clht w.process pc
    each : (k : ℕ) → SysInv lock posix max_threads (w.locks k) (w.place k)

  module _ (w : World) (pc : ℕ → Pc) (i : ℕ) (v : Whole w pc) where
    open v use {ledger, each}

    still : (p : Pc) → pc i ≡ p → Whole w (update pc i p)
    still p e = rw (update_same pc i p e) v

    lock_moves :
        (id k : ℕ) (c : Wrapper.Choice)
        → id < max_threads
        → (k' : ℕ)
        → SysInv lock posix max_threads ((in_lock id k c w).locks k') ((in_lock id k c w).place k')
    lock_moves id k c lt k' = elim (Bool-cases (k == k')) [
      | inl t ↦ rw t (SysInv-step lock posix max_threads id c (w.locks k) (w.place k) lt (each k))
      | inr t ↦ rw t (each k')
    ]

    moved_in :
        (id x k : ℕ) (c : Wrapper.Choice) (b : Bool)
        → pc i ≡ using id x k
        → Whole (if b then w else in_lock id k c w) (update pc i (using id x k))
    moved_in id x k c true e = still (using id x k) e
    moved_in id x k c false e = record {
      ledger = rw (update_same pc i (using id x k) e) ledger;
      each = lock_moves id k c (ledger.ids i id (ap id_of e)).1;
    }

    moved_out :
        (c : Interpose.Choice) (b : Bool)
        → Whole
            (if b then out_step i c w (pc i) else (w, pc i)).0
            (update pc i (if b then out_step i c w (pc i) else (w, pc i)).1)
    moved_out c true = record { ledger = Inv-step clht ledger i c; each = each }
    moved_out c false = still (pc i) refl

    moved :
        (c : Wrapper.Choice) (p : Pc)
        → pc i ≡ p
        → Whole (work i (inner c) w p).0 (update pc i (work i (inner c) w p).1)
    unfolding work
    moved c (using id x k) e = moved_in id x k c w.process.exited e
    moved c p e = still p e

    Whole-work : (a : Event) → Whole (work i a w (pc i)).0 (update pc i (work i a w (pc i)).1)
    unfolding work
    Whole-work (outer c) = moved_out c (may_return w (pc i))
    Whole-work (inner c) = moved c (pc i) refl

  worked-Whole : lock.Fits max_threads → (l : List (ℕ × Event)) → Whole (worked l).mem (worked l).pc
  worked-Whole fits l =
      run_keeps work Whole (λ i a w pc v. Whole-work w pc i v a) l _
        (record { ledger = start clht; each = λ k. SysInv-start lock posix fits })

  -- Two threads of a program, whatever lock file the library is built with, do not hold the lock of one mutex at the same time: the locks that threads create, race for and share by the hash table, with their contexts, exclude each other as each lock file does by itself. The lock has to serve MAX_THREADS threads.
  pub interposed_exclusion :
      (l : List (ℕ × Event))
      → lock.Fits max_threads
      → (i j id id' x k : ℕ) → i ≢ j
      → id_of ((worked l).pc i) ≡ some id
      → id_of ((worked l).pc j) ≡ some id'
      → clht.get (worked l).mem.process.table x ≡ some k
      → raw_of ((worked l).mem.place k id) ≡ held
      → raw_of ((worked l).mem.place k id') ≢ held
  interposed_exclusion l fits i j id id' x k differ ei ej found hi hj =
      let v = worked-Whole fits l in
      let led = v.ledger in
      led.ids_differ i j id id' differ ei ej
        (lock.exclusive id id' (v.each k).raw (led.ids i id ei).1 (led.ids j id' ej).1 hi hj)
