-- ===== src/Rdma/Moves.antt =====
-- What a client thread does to memory, and that the invariant survives it.
use dal.Prelude.{
  ℕ, ◌+◌, ◌*◌, ◌%◌, ◌^◌, ◌≤◌, ◌<◌, ◌≡◌, ◌≢◌, refl, true, false, Option, none, some, ◌==◌,
  if◌then◌else◌, update, arith, Bool-cases, inl, inr, ==_iff, ap, ◌⊎◌, subst, sym, ◌∙◌, dec_lt,
  ℕ_discrete,
}
use dal.Rdma.Nic.{Nic}
use dal.Rdma.Client.{
  max_array_size, Layout, rlock_addr, data_addr, has_data, Variant, Pc, inside, releasing, Mem,
  set2, retry, spinlock, spinlock_bo, lease1,
}
use dal.Rdma.Invariant.{holds, Synced, Loaded, Local, Inv, Agrees, Synced-Agrees, Inv-Advance}

module _ (nic : Nic) (y : Layout) (fits : y.data_len ≤ max_array_size) where
  open nic use {
    Remote, word, int_at, compare_swap, write_word, write_block, word-compare_swap,
    int_at-compare_swap, word-write_word, int_at-write_word, word-write_block, int_at-write_block,
    int_at-write_block_apart,
  }

  Agrees-refl : (m : Mem Remote) (i l : ℕ) → Agrees nic y m m i l
  Agrees-refl m i l = record {
    same_block = λ k h. refl;
    same_made = λ k. refl;
    same_pointer = refl;
    same_buffer = λ k. refl;
  }

  -- The blocks of two locks do not overlap.
  blocks_apart :
      (l l' k : ℕ)
      → l ≢ l'
      → 4 * k < y.data_len
      → (data_addr y l' + 4 * k < data_addr y l)
        ⊎ (data_addr y l + y.data_len ≤ data_addr y l' + 4 * k)
  blocks_apart l l' k ne lt = elim (dec_lt l' l) [
    | yes below ↦ inl (omega (arith, fits))
    | no above ↦ inr (omega (arith, fits))
  ]

  module _ {m : Mem Remote} {pc : ℕ → Pc} (v : Inv nic y m pc) (i : ℕ) where
    -- Nothing in memory changes, and no lock is taken.
    pub stay :
        (p' : Pc)
        → ((l : ℕ) → holds p' ≡ some l → holds (pc i) ≡ some l)
        → Local nic y m i p'
        → Inv nic y m (update pc i p')
    stay p' h loc = Inv-Advance nic y v (record {
      claims = λ l e. inl (h l e);
      keeps = λ l e. v.taken i l (h l e);
      spares = λ j l ne e. v.taken j l e;
      frees = v.free;
      agrees = λ j l ne e. Agrees-refl m j l;
      arrives = loc;
      points = v.unset;
    })

    abbrev pub swapped : ℕ → Mem Remote
    swapped l = record m {
      remote = compare_swap (rlock_addr y l) 0 1 m.remote;
      cas_result = update m.cas_result i (word m.remote (rlock_addr y l));
    }

    pub swapped-Agrees : (l j k : ℕ) → Agrees nic y m (swapped l) j k
    swapped-Agrees l j k = record {
      same_block = λ n h. int_at-compare_swap _ 0 1 m.remote _;
      same_made = λ n. refl;
      same_pointer = refl;
      same_buffer = λ n. refl;
    }

    -- The compare-and-swap frees no word.
    pub swapped-free : (l a : ℕ) → word (swapped l).remote a ≡ 0 → word m.remote a ≡ 0
    swapped-free l a h = ground (arith, word-compare_swap (rlock_addr y l) 0 1 m.remote a)

    pub swapped-taken : (l : ℕ) → word (swapped l).remote (rlock_addr y l) ≢ 0
    swapped-taken l h =
        ground (arith, word-compare_swap (rlock_addr y l) 0 1 m.remote (rlock_addr y l))

    pub swap :
        (l : ℕ) (p' : Pc)
        → ((k : ℕ) → holds p' ≡ some k → (k ≡ l) × (word m.remote (rlock_addr y l) ≡ 0))
        → Local nic y (swapped l) i p'
        → Inv nic y (swapped l) (update pc i p')
    swap l p' h loc = Inv-Advance nic y v (record {
      claims = λ k e. inr (rw (h k e).0 (h k e).1);
      keeps = λ k e. rw (h k e).0 (swapped-taken l);
      spares = λ j k ne e z. v.taken j k e (swapped-free l _ z);
      frees = λ k z. Synced-Agrees nic y (swapped-Agrees l i k) (v.free k (swapped-free l _ z));
      agrees = λ j k ne e. swapped-Agrees l j k;
      arrives = loc;
      points = v.unset;
    })

    pub swapped-Synced : (l : ℕ) → word m.remote (rlock_addr y l) ≡ 0 → Synced nic y (swapped l) l
    swapped-Synced l z = Synced-Agrees nic y (swapped-Agrees l i l) (v.free l z)

    -- The result of the compare-and-swap, as `rdma_cas` goes on from it.
    pub swap_result :
        (l : ℕ) (won lose : Pc)
        → holds won ≡ some l
        → holds lose ≡ none
        → (word m.remote (rlock_addr y l) ≡ 0 → Local nic y (swapped l) i won)
        → Local nic y (swapped l) i lose
        → Inv nic y
            (swapped l)
            (update pc i (if word m.remote (rlock_addr y l) == 0 then won else lose))
    swap_result l won lose hw hl lw ll = elim (Bool-cases (word m.remote (rlock_addr y l) == 0)) [
      | inl z ↦ let z' = (==_iff _ 0).0 z in rw z (swap l won (λ k e. (ground arith, z')) (lw z'))
      | inr z ↦ rw z (swap l lose (λ k e. cc) ll)
    ]

    pub retry-holds : (x : Variant) (l tries delay : ℕ) → holds (retry x l tries delay) ≡ none
    retry-holds spinlock l tries delay = refl
    retry-holds spinlock_bo l tries delay = refl
    retry-holds lease1 l tries delay = refl

    pub retry-Local :
        (m' : Mem Remote) (x : Variant) (l tries delay : ℕ)
        → Local nic y m' i (retry x l tries delay)
    retry-Local m' spinlock l tries delay = tt
    retry-Local m' spinlock_bo l tries delay = tt
    retry-Local m' lease1 l tries delay = tt

    -- A read of the block: the buffer of thread `i` changes, and perhaps the pointer of the lock.
    abbrev pub loaded : (ℕ → ℕ) → (ℕ → ℕ → Option ℕ) → Mem Remote
    loaded f ptr = record m { buffer = update m.buffer i f; int_data = ptr }

    pub others : (j l l' : ℕ) → i ≢ j → holds (pc i) ≡ some l → holds (pc j) ≡ some l' → l ≢ l'
    others j l l' ne hi hj e = ne (v.unique i j l hi (rw e hj))

    pub load :
        (l : ℕ) (f : ℕ → ℕ) (ptr : ℕ → ℕ → Option ℕ) (p' : Pc)
        → holds (pc i) ≡ some l
        → holds p' ≡ some l
        → ((c k : ℕ) → l ≢ k → ptr c k ≡ m.int_data c k)
        → ((c k : ℕ) → has_data k ≡ false → ptr c k ≡ none)
        → Local nic y (loaded f ptr) i p'
        → Inv nic y (loaded f ptr) (update pc i p')
    load l f ptr p' h h' same off loc = Inv-Advance nic y v (record {
      claims = λ k e. inl (ground arith);
      keeps = λ k e. v.taken i k (ground arith);
      spares = λ j k ne e. v.taken j k e;
      frees = v.free;
      agrees = λ j k ne e. record {
        same_block = λ n lt. refl;
        same_made = λ n. refl;
        same_pointer = same (y.client_of j) k (others j l k ne h e);
        same_buffer = λ n. ground arith;
      };
      arrives = loc;
      points = off;
    })

    -- An increment in the buffer of thread `i`.
    abbrev pub bumped : (l k : ℕ) → Mem Remote
    bumped l k = record m {
      buffer = set2 m.buffer i k ((m.buffer i k + 1) % 2 ^ 32);
      made = set2 m.made l k (m.made l k + 1);
    }

    pub bump :
        (l k tries : ℕ)
        → pc i ≡ inside l tries
        → has_data l ≡ true
        → Inv nic y (bumped l k) (update pc i (inside l tries))
    bump l k tries e d = Inv-Advance nic y v (record {
      claims = λ l' h. inl (ground arith);
      keeps = λ l' h. v.taken i l' (ground arith);
      spares = λ j l' ne h. v.taken j l' h;
      frees = λ l' z d' n lt. ground (arith, v.free l' z d' n lt, v.taken i l);
      agrees = λ j l' ne h. record {
        same_block = λ n lt. refl;
        same_made = λ n. ground (arith, others j l l');
        same_pointer = refl;
        same_buffer = λ n. ground arith;
      };
      arrives = λ d'. ((mine d).0, λ n lt. ground (arith, (mine d).1 n lt));
      points = v.unset;
    })
      where
        mine : Loaded nic y m i l
        mine = subst (Local nic y m i) e (v.locals i)

    -- The buffer of thread `i` goes to the block of its lock.
    abbrev pub sent : ℕ → Mem Remote
    sent l = record m { remote = write_block (data_addr y l) y.data_len (m.buffer i) m.remote }

    pub sent-Agrees : (j l l' : ℕ) → l ≢ l' → Agrees nic y m (sent l) j l'
    sent-Agrees j l l' ne = record {
      same_block = λ k lt.
          int_at-write_block_apart (data_addr y l) y.data_len (m.buffer i) m.remote
            (data_addr y l' + 4 * k) (blocks_apart l l' k ne lt);
      same_made = λ k. refl;
      same_pointer = refl;
      same_buffer = λ k. refl;
    }

    pub unsent : (l a : ℕ) → word (sent l).remote a ≡ 0 → word m.remote a ≡ 0
    unsent l a z = sym (word-write_block _ _ _ m.remote a) ∙ z

    pub send :
        (l : ℕ) (p' : Pc)
        → holds (pc i) ≡ some l
        → holds p' ≡ some l
        → Synced nic y (sent l) l × ((Synced nic y (sent l) l) → Local nic y (sent l) i p')
        → Inv nic y (sent l) (update pc i p')
    send l p' h h' (synced, loc) = Inv-Advance nic y v (record {
      claims = λ k e. inl (ground arith);
      keeps = λ k e z. v.taken i k (ground arith) (unsent l _ z);
      spares = λ j k ne e z. v.taken j k e (unsent l _ z);
      frees = λ k z.
          Synced-Agrees nic y (sent-Agrees i l k (λ same. v.taken i l h (rw same (unsent l _ z))))
            (v.free k (unsent l _ z));
      agrees = λ j k ne e. sent-Agrees j l k (others j l k ne h e);
      arrives = loc synced;
      points = v.unset;
    })

    pub sent-Synced : (l : ℕ) → Loaded nic y m i l → Synced nic y (sent l) l
    sent-Synced l h d k lt =
        int_at-write_block (data_addr y l) y.data_len (m.buffer i) m.remote k lt ∙ (h d).1 k lt

    -- The word of the lock is set back to 0.
    abbrev pub cleared : ℕ → Mem Remote
    cleared l = record m { remote = write_word (rlock_addr y l) 0 m.remote }

    pub cleared-Agrees : (l j k : ℕ) → Agrees nic y m (cleared l) j k
    cleared-Agrees l j k = record {
      same_block = λ n h. int_at-write_word _ 0 m.remote _;
      same_made = λ n. refl;
      same_pointer = refl;
      same_buffer = λ n. refl;
    }

    pub cleared_free :
        (l l' : ℕ)
        → Synced nic y m l
        → word (cleared l).remote (rlock_addr y l') ≡ 0
        → Synced nic y (cleared l) l'
    cleared_free l l' h z = elim (ℕ_discrete l l') [
      | yes same ↦ Synced-Agrees nic y (cleared-Agrees l i l') (rw same at h)
      | no apart ↦ Synced-Agrees nic y (cleared-Agrees l i l') (
          v.free l' (ground (arith, word-write_word (rlock_addr y l) 0 m.remote (rlock_addr y l'))))
    ]

    pub clear :
        (l : ℕ) (p' : Pc)
        → pc i ≡ releasing l
        → holds p' ≡ none
        → Local nic y (cleared l) i p'
        → Inv nic y (cleared l) (update pc i p')
    clear l p' e h' loc = Inv-Advance nic y v (record {
      claims = λ k h. cc;
      keeps = λ k h. cc;
      spares = λ j k ne h z. ground (
        arith,
        others j l k ne (ap holds e) h,
        v.taken j k h,
        word-write_word (rlock_addr y l) 0 m.remote (rlock_addr y k),
      );
      frees = λ k z. cleared_free l k (subst (Local nic y m i) e (v.locals i)) z;
      agrees = λ j k ne h. cleared-Agrees l j k;
      arrives = loc;
      points = v.unset;
    })
