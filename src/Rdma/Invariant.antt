-- ===== src/Rdma/Invariant.antt =====
-- What holds of locks, data and buffers in every state that the client threads reach.
use dal.Prelude.{
  ℕ, ◌+◌, ◌*◌, ◌%◌, ◌^◌, ◌<◌, ◌≡◌, ◌≢◌, refl, true, false, Option, none, some, ◌==◌, update, arith,
  Bool-cases, inl, inr, ◌⊎◌, ==_iff, subst,
}
use dal.Rdma.Nic.{Nic}
use dal.Rdma.Client.{
  Layout, rlock_addr, data_addr, has_data, Pc, reading, inside, writing, releasing, exited, Mem,
}

-- The lock that a thread has taken on the memory node.
abbrev pub holds : Pc → Option ℕ
holds (reading l _) = some l
holds (inside l _) = some l
holds (writing l) = some l
holds (releasing l) = some l
holds (exited h) = h
holds _ = none

module _ (nic : Nic) (y : Layout) where
  open nic use {Remote, word, int_at}

  -- The block of lock `l` on the memory node counts the increments made under it.
  abbrev pub Synced : Mem Remote → ℕ → Type 0
  Synced m l =
      has_data l ≡ true
      → (k : ℕ) → 4 * k < y.data_len
      → int_at m.remote (data_addr y l + 4 * k) ≡ m.made l k % 2 ^ 32

  -- The lock points to the buffer of thread `i`, which counts them.
  abbrev pub Loaded : Mem Remote → ℕ → ℕ → Type 0
  Loaded m i l =
      has_data l ≡ true
      → (m.int_data (y.client_of i) l ≡ some i)
        × ((k : ℕ) → 4 * k < y.data_len → m.buffer i k ≡ m.made l k % 2 ^ 32)

  abbrev pub Local : Mem Remote → ℕ → Pc → Type 0
  Local m i (reading l _) = Synced m l
  Local m i (inside l _) = Loaded m i l
  Local m i (writing l) = Loaded m i l
  Local m i (releasing l) = Synced m l
  Local m i _ = Unit

  pub record Inv (m : Mem Remote) (pc : ℕ → Pc) : Type 0 where
    pub unique : (i j l : ℕ) → holds (pc i) ≡ some l → holds (pc j) ≡ some l → i ≡ j
    pub taken : (i l : ℕ) → holds (pc i) ≡ some l → word m.remote (rlock_addr y l) ≢ 0
    pub free : (l : ℕ) → word m.remote (rlock_addr y l) ≡ 0 → Synced m l
    pub locals : (i : ℕ) → Local m i (pc i)
    pub unset : (c l : ℕ) → has_data l ≡ false → m.int_data c l ≡ none

  -- Memories that agree on lock `l`, its data and the buffer of thread `i`.
  pub record Agrees (m m' : Mem Remote) (i l : ℕ) : Type 0 where
    pub same_block :
        (k : ℕ)
        → 4 * k < y.data_len
        → int_at m'.remote (data_addr y l + 4 * k) ≡ int_at m.remote (data_addr y l + 4 * k)
    pub same_made : (k : ℕ) → m'.made l k ≡ m.made l k
    pub same_pointer : m'.int_data (y.client_of i) l ≡ m.int_data (y.client_of i) l
    pub same_buffer : (k : ℕ) → m'.buffer i k ≡ m.buffer i k

  pub Synced-Agrees : {m m' : Mem Remote} {i l : ℕ} → Agrees m m' i l → Synced m l → Synced m' l
  Synced-Agrees a h d k lt = rw (a.same_block k lt, a.same_made k) (h d k lt)

  Loaded-Agrees : {m m' : Mem Remote} {i l : ℕ} → Agrees m m' i l → Loaded m i l → Loaded m' i l
  Loaded-Agrees a h d =
      (rw a.same_pointer (h d).0, λ k lt. rw (a.same_buffer k, a.same_made k) ((h d).1 k lt))

  Local-Agrees :
      {m m' : Mem Remote} {i : ℕ} (p : Pc)
      → ((l : ℕ) → holds p ≡ some l → Agrees m m' i l)
      → Local m i p
      → Local m' i p
  Local-Agrees (reading l _) a h = Synced-Agrees (a l refl) h
  Local-Agrees (inside l _) a h = Loaded-Agrees (a l refl) h
  Local-Agrees (writing l) a h = Loaded-Agrees (a l refl) h
  Local-Agrees (releasing l) a h = Synced-Agrees (a l refl) h
  Local-Agrees _ a h = tt

  -- A step of thread `i` from `m` to `m'`, which leaves it at `p'`: what it must show to keep `Inv`.
  pub record Advance (m m' : Mem Remote) (pc : ℕ → Pc) (i : ℕ) (p' : Pc) : Type 0 where
    pub claims :
        (l : ℕ) → holds p' ≡ some l → (holds (pc i) ≡ some l) ⊎ (word m.remote (rlock_addr y l) ≡ 0)
    pub keeps : (l : ℕ) → holds p' ≡ some l → word m'.remote (rlock_addr y l) ≢ 0
    pub spares : (j l : ℕ) → i ≢ j → holds (pc j) ≡ some l → word m'.remote (rlock_addr y l) ≢ 0
    pub frees : (l : ℕ) → word m'.remote (rlock_addr y l) ≡ 0 → Synced m' l
    pub agrees : (j l : ℕ) → i ≢ j → holds (pc j) ≡ some l → Agrees m m' j l
    pub arrives : Local m' i p'
    pub points : (c l : ℕ) → has_data l ≡ false → m'.int_data c l ≡ none

  pub Inv-Advance :
      {m m' : Mem Remote} {pc : ℕ → Pc} {i : ℕ} {p' : Pc}
      → Inv m pc
      → Advance m m' pc i p'
      → Inv m' (update pc i p')
  Inv-Advance {m} {m'} {pc} {i} {p'} v a = record {
    unique = λ j k l hj hk. ground (
      arith,
      a.claims l,
      v.unique j k l,
      v.unique i k l,
      v.unique j i l,
      v.taken j l,
      v.taken k l,
    );
    taken = λ j l hj. elim (Bool-cases (i == j)) [
      | inl e ↦ a.keeps l (rw e at hj)
      | inr e ↦ a.spares j l (apart e) (rw e at hj)
    ];
    free = a.frees;
    unset = a.points;
    locals = λ j. elim (Bool-cases (i == j)) [
      | inl e ↦ rw e (subst (λ k. Local m' k p') ((==_iff i j).0 e) a.arrives)
      | inr e ↦ rw e (Local-Agrees (pc j) (λ l h. a.agrees j l (apart e) h) (v.locals j))
    ];
  }
    where
      apart : {j : ℕ} → i == j ≡ false → i ≢ j
      apart e = ground arith
