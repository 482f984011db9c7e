-- ===== src/Interpose/Entries.antt =====
-- What each change of the table, and each lock that is taken down, does to the ledger.
use dal.Prelude.{ℕ, ◌≡◌, true, Option, none, some, arith, update}
use dal.Interpose.Table.{Clht}
use dal.Interpose.{
  Process, Pc, putting, losing, removing, destroying, freeing, Purpose, created, after_remove,
}
use dal.Interpose.Ledger.{id_of, owns, owns_whole, Inv}

module _ (clht : Clht) where
  open clht use {State, get, put, remove}

  module _ {m : Process State} {pc : ℕ → Pc} (v : Inv clht m pc) (i : ℕ) where
    open v use {ids, ids_differ, few, owned, apart, whole, sole, stored, once, unmade}

    -- Its insertion takes it into the table.
    pub insert :
        (id x k : ℕ) (u : Purpose)
        → pc i ≡ putting id x k u
        → get m.table x ≡ none
        → Inv clht (record m { table = (put m.table x k).0 }) (update pc i (created id x k u))
    insert id x k u e free = record {
      ids = λ j d h. ground (arith, ids j d, u);
      ids_differ = λ j j' d d' ne h h'. ground (arith, ids_differ j j' d d', u);
      few = few;
      owned = λ j k' h. ground (arith, owned j k', u);
      apart =
          λ j k' y h. ground (arith, apart j k' y, sole i j k', clht.get-put m.table x k free y, u);
      whole = λ j k' h. ground (arith, whole j k', u);
      sole = λ j j' k' h h'. ground (arith, sole j j' k', u);
      stored = λ y k' h.
          ground (arith, stored y k', owned i k, whole i k, clht.get-put m.table x k free y);
      once = λ y y' k' h h'. ground (
        arith,
        once y y' k',
        apart i k y,
        apart i k y',
        clht.get-put m.table x k free y,
        clht.get-put m.table x k free y',
      );
      unmade = unmade;
    }

    -- Or another thread was faster.
    pub lose :
        (id x k w : ℕ) (u : Purpose)
        → pc i ≡ putting id x k u
        → get m.table x ≡ some w
        → Inv clht (record m { table = (put m.table x k).0 }) (update pc i (losing id x k u))
    lose id x k w u e there = record {
      ids = λ j d h. ground (arith, ids j d);
      ids_differ = λ j j' d d' ne h h'. ground (arith, ids_differ j j' d d');
      few = few;
      owned = λ j k' h. ground (arith, owned j k');
      apart = λ j k' y h. ground (arith, apart j k' y, clht.get-put-there m.table x k w there y);
      whole = λ j k' h. ground (arith, whole j k');
      sole = λ j j' k' h h'. ground (arith, sole j j' k');
      stored = λ y k' h. ground (arith, stored y k', clht.get-put-there m.table x k w there y);
      once = λ y y' k' h h'. ground (
        arith,
        once y y' k',
        clht.get-put-there m.table x k w there y,
        clht.get-put-there m.table x k w there y',
      );
      unmade = unmade;
    }

    -- A removal takes what it finds out of the table.
    pub take_out :
        (id x : ℕ) (o : Option ℕ)
        → pc i ≡ removing id x
        → get m.table x ≡ o
        → Inv clht (record m { table = (remove m.table x).0 }) (update pc i (after_remove id o))
    take_out id x o e found = record {
      ids = λ j d h. ground (arith, ids j d, o);
      ids_differ = λ j j' d d' ne h h'. ground (arith, ids_differ j j' d d', o);
      few = few;
      owned = λ j k h. ground (arith, owned j k, stored x k, o);
      apart = λ j k y h. ground (arith, apart j k y, once x y k, clht.get-remove m.table x y, o);
      whole = λ j k h. ground (arith, whole j k, stored x k, o);
      sole = λ j j' k h h'. ground (arith, sole j j' k, apart j k x, apart j' k x, o);
      stored = λ y k h. ground (arith, stored y k, clht.get-remove m.table x y);
      once = λ y y' k h h'.
          ground (arith, once y y' k, clht.get-remove m.table x y, clht.get-remove m.table x y');
      unmade = unmade;
    }

    pub destroy :
        (id k : ℕ)
        → pc i ≡ destroying id k
        → Inv clht (record m { destroyed = update m.destroyed k true }) (update pc i (freeing id k))
    destroy id k e = record {
      ids = λ j d h. ground (arith, ids j d);
      ids_differ = λ j j' d d' ne h h'. ground (arith, ids_differ j j' d d');
      few = few;
      owned = λ j k' h. ground (arith, owned j k');
      apart = λ j k' y h. ground (arith, apart j k' y);
      whole = λ j k' h. ground (arith, whole j k', sole i j k, j);
      sole = λ j j' k' h h'. ground (arith, sole j j' k');
      stored = λ y k' h. ground (arith, stored y k', apart i k y);
      once = once;
      unmade = λ k' h. ground (arith, unmade k', owned i k);
    }

    -- The memory of a lock in hand is freed.
    pub release :
        (k : ℕ) (p' : Pc)
        → owns (pc i) ≡ some k
        → id_of p' ≡ id_of (pc i)
        → owns p' ≡ none
        → owns_whole p' ≡ none
        → Inv clht (record m { freed = update m.freed k true }) (update pc i p')
    release k p' mine same free free' = record {
      ids = λ j d h. ground (arith, ids j d);
      ids_differ = λ j j' d d' ne h h'. ground (arith, ids_differ j j' d d');
      few = few;
      owned = λ j k' h. ground (arith, owned j k', sole i j k);
      apart = λ j k' y h. ground (arith, apart j k' y);
      whole = λ j k' h. ground (arith, whole j k');
      sole = λ j j' k' h h'. ground (arith, sole j j' k');
      stored = λ y k' h. ground (arith, stored y k', apart i k y);
      once = once;
      unmade = λ k' h. ground (arith, unmade k', owned i k);
    }
