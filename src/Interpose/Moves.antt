-- ===== src/Interpose/Moves.antt =====
-- What each step of a thread does to the ledger.
use dal.Prelude.{ℕ, suc, ◌+◌, ◌%◌, ◌^◌, ◌≤◌, ◌<◌, ◌≡◌, refl, true, false, none, arith, update, ◌⊎◌}
use dal.Interpose.Table.{Clht}
use dal.Interpose.{max_threads, Process, Pc, starting, running, creating, putting, Purpose, loaded}
use dal.Interpose.Ledger.{id_of, owns, owns_whole, Inv}

module _ (clht : Clht) where
  open clht use {State, get, put, remove}

  pub start : Inv clht (loaded clht) (λ i. starting)
  start = record {
    ids = λ i d h. cc;
    ids_differ = λ i j d e ne h. cc;
    few = λ e. omega arith;
    owned = λ i k h. cc;
    apart = λ i k x h. cc;
    whole = λ i k h. cc;
    sole = λ i j k h. cc;
    stored = λ x k h. ground (arith, clht.get-empty x);
    once = λ x y k h. ground (arith, clht.get-empty x);
    unmade = λ k h. (refl, refl);
  }

  module _ {m : Process State} {pc : ℕ → Pc} (v : Inv clht m pc) (i : ℕ) where
    open v use {ids, ids_differ, few, owned, apart, whole, sole, stored, once, unmade}

    -- A step that touches nothing shared.
    pub walk :
        (p' : Pc)
        → id_of p' ≡ none ⊎ (id_of p' ≡ id_of (pc i))
        → owns p' ≡ none
        → owns_whole p' ≡ none
        → Inv clht m (update pc i p')
    walk p' same free free' = record {
      ids = λ j d h. ground (arith, ids j d);
      ids_differ = λ j k d e ne h h'. ground (arith, ids_differ j k d e);
      few = few;
      owned = λ j k h. ground (arith, owned j k);
      apart = λ j k x h. ground (arith, apart j k x);
      whole = λ j k h. ground (arith, whole j k);
      sole = λ j j' k h h'. ground (arith, sole j j' k);
      stored = stored;
      once = once;
      unmade = unmade;
    }

    -- A thread starts with the next number.
    pub numbered :
        pc i ≡ starting
        → m.exited ≡ false
        → m.last_thread_id < max_threads
        → Inv clht
            (record m { last_thread_id = (m.last_thread_id + 1) % 2 ^ 32 })
            (update pc i (running m.last_thread_id))
    numbered e on lt = record {
      ids = λ j d h. ground (arith, ids j d);
      ids_differ = λ j k d d' ne h h'. ground (arith, ids_differ j k d d', ids j d, ids k d');
      few = λ h. omega (arith);
      owned = λ j k h. ground (arith, owned j k);
      apart = λ j k x h. ground (arith, apart j k x);
      whole = λ j k h. ground (arith, whole j k);
      sole = λ j j' k h h'. ground (arith, sole j j' k);
      stored = stored;
      once = once;
      unmade = unmade;
    }

    -- Or there is none left, and the process exits.
    pub refused :
        pc i ≡ starting
        → m.exited ≡ false
        → max_threads ≤ m.last_thread_id
        → Inv clht
            (record m { last_thread_id = (m.last_thread_id + 1) % 2 ^ 32; exited = true })
            (update pc i starting)
    refused e on ge = record {
      ids = λ j d h. ground (arith, ids j d, few);
      ids_differ = λ j k d d' ne h h'. ground (arith, ids_differ j k d d', ids j d, ids k d');
      few = λ h. absurd (ground arith);
      owned = λ j k h. ground (arith, owned j k);
      apart = λ j k x h. ground (arith, apart j k x);
      whole = λ j k h. ground (arith, whole j k);
      sole = λ j j' k h h'. ground (arith, sole j j' k);
      stored = stored;
      once = once;
      unmade = unmade;
    }

    -- A new lock is in its creator's hands.
    pub make :
        (id x : ℕ) (u : Purpose)
        → pc i ≡ creating id x u
        → Inv clht (record m { made = suc m.made }) (update pc i (putting id x m.made u))
    make id x u e = record {
      ids = λ j d h. ground (arith, ids j d);
      ids_differ = λ j k d d' ne h h'. ground (arith, ids_differ j k d d');
      few = few;
      owned = λ j k h. ground (arith, owned j k, unmade m.made);
      apart = λ j k y h. ground (arith, apart j k y, stored y k);
      whole = λ j k h. ground (arith, whole j k, unmade m.made);
      sole = λ j j' k h h'. ground (arith, sole j j' k, owned j k, owned j' k);
      stored = λ y k h. ground (arith, stored y k);
      once = once;
      unmade = λ k h. unmade k (omega arith);
    }
