-- ===== src/Rdma/Steps.antt =====
-- Each step of a client thread keeps the invariant.
use dal.Prelude.{
  ℕ, zero, suc, ◌+◌, ◌*◌, ◌≤◌, ◌≡◌, refl, true, none, some, ◌==◌, ltb, update, arith, Bool-cases,
  inl, inr, ==_iff, ap, subst,
}
use dal.Rdma.Nic.{Nic}
use dal.Rdma.Client.{
  max_array_size, Layout, rlock_addr, has_data, Variant, Pc, idle, casing, pausing, reading, inside,
  writing, releasing, exited, Choice, request, work, release, lost, cut_off, unseen, is_seen, Mem,
  longer, set2, retry, step, bo, fetched, read_block, rdma_read_data, write_from, rdma_write_data,
  rdma_release_rlock, increment, rdma_cas, spinlock_bo,
}
use dal.Rdma.Invariant.{holds, Synced, Loaded, Local, Inv}
use dal.Rdma.Moves.{
  stay, swapped, swap, swapped-Synced, swap_result, retry-holds, retry-Local, loaded, load, bump,
  send, sent-Synced, clear,
}

module _ (nic : Nic) (y : Layout) (fits : y.data_len ≤ max_array_size) where
  open nic use {Remote, word}

  module _ {m : Mem Remote} {pc : ℕ → Pc} (v : Inv nic y m pc) (i : ℕ) where
    Inv-cas :
        (c : Choice) (x : Variant) (l tries delay : ℕ)
        → is_seen c ≡ true
        → pc i ≡ casing x l tries delay
        → Inv nic y
            (rdma_cas nic y i c m x l tries delay).0
            (update pc i (rdma_cas nic y i c m x l tries delay).1)
    unfolding rdma_cas
    Inv-cas lost x l tries delay ok e = (stay nic y fits v i) (exited none) (λ k h. cc) tt
    Inv-cas cut_off x l tries delay ok e = elim (Bool-cases (word m.remote (rlock_addr y l) == 0)) [
      | inl z ↦
          rw z
            ((swap nic y fits v i) l (exited (some l)) (λ k h. (ground arith, (==_iff _ 0).0 z)) tt)
      | inr z ↦ rw z ((swap nic y fits v i) l (exited none) (λ k h. cc) tt)
    ]
    Inv-cas (unseen carried) x l tries delay ok e = absurd (ground arith)
    Inv-cas c x l tries delay ok e =
        (swap_result nic y fits v i) l (reading l (tries + 1)) (retry x l (tries + 1) delay) refl
          ((retry-holds nic y fits v i) x l (tries + 1) delay) ((swapped-Synced nic y fits v i) l)
          ((retry-Local nic y fits v i) ((swapped nic y fits v i) l) x l (tries + 1) delay)

    fetch_Loaded :
        (l : ℕ)
        → Synced nic y m l
        → Loaded nic y
            ((loaded nic y fits v i)
              (fetched nic y i m l)
              (set2 m.int_data (y.client_of i) l (some i)))
            i
            l
    unfolding fetched
    fetch_Loaded l h d = (ground arith, λ k lt. ground (arith, h d k lt))

    Inv-read_block :
        (c : Choice) (l tries : ℕ)
        → is_seen c ≡ true
        → pc i ≡ reading l tries
        → has_data l ≡ true
        → Inv nic y
            (read_block nic y i c m l tries).0
            (update pc i (read_block nic y i c m l tries).1)
    unfolding read_block
    Inv-read_block lost l tries ok e d =
        (stay nic y fits v i) (exited (some l)) (λ k h. ground arith) tt
    Inv-read_block cut_off l tries ok e d =
        (load nic y fits v i) l (fetched nic y i m l) m.int_data (exited (some l)) (ap holds e) refl
          (λ c k ne. refl) v.unset tt
    Inv-read_block (unseen carried) l tries ok e d = absurd (ground arith)
    Inv-read_block c l tries ok e d =
        (load nic y fits v i) l (fetched nic y i m l) (set2 m.int_data (y.client_of i) l (some i))
          (inside l tries) (ap holds e) refl (λ c k ne. ground arith)
          (λ c k off. ground (arith, v.unset c k))
          (fetch_Loaded l (subst (Local nic y m i) e (v.locals i)))

    Inv-read :
        (c : Choice) (l tries : ℕ)
        → is_seen c ≡ true
        → pc i ≡ reading l tries
        → Inv nic y
            (rdma_read_data nic y i c m l tries).0
            (update pc i (rdma_read_data nic y i c m l tries).1)
    unfolding rdma_read_data
    Inv-read c l tries ok e = elim (Bool-cases (has_data l)) [
      | inl d ↦ rw d (Inv-read_block c l tries ok e d)
      | inr d ↦ rw d ((stay nic y fits v i) (inside l tries) (λ k h. ground arith) (λ d'. cc))
    ]

    Inv-write_from :
        (c : Choice) (l : ℕ)
        → is_seen c ≡ true
        → pc i ≡ writing l
        → has_data l ≡ true
        → Inv nic y
            (write_from nic y (some i) c m l).0
            (update pc i (write_from nic y (some i) c m l).1)
    unfolding write_from
    Inv-write_from lost l ok e d = (stay nic y fits v i) (exited (some l)) (λ k h. ground arith) tt
    Inv-write_from cut_off l ok e d =
        (send nic y fits v i) l (exited (some l)) (ap holds e) refl
          ((sent-Synced nic y fits v i) l (subst (Local nic y m i) e (v.locals i)), λ h. tt)
    Inv-write_from (unseen carried) l ok e d = absurd (ground arith)
    Inv-write_from c l ok e d =
        (send nic y fits v i) l (releasing l) (ap holds e) refl
          ((sent-Synced nic y fits v i) l (subst (Local nic y m i) e (v.locals i)), λ h. h)

    own_pointer :
        (l : ℕ) → Loaded nic y m i l → has_data l ≡ true → m.int_data (y.client_of i) l ≡ some i
    own_pointer l h d = (h d).0

    Inv-write :
        (c : Choice) (l : ℕ)
        → is_seen c ≡ true
        → pc i ≡ writing l
        → Inv nic y
            (rdma_write_data nic y i c m l).0
            (update pc i (rdma_write_data nic y i c m l).1)
    unfolding rdma_write_data
    Inv-write c l ok e = elim (Bool-cases (has_data l)) [
      | inl d ↦
          rw (d, own_pointer l (subst (Local nic y m i) e (v.locals i)) d)
            (Inv-write_from c l ok e d)
      | inr d ↦ rw d ((stay nic y fits v i) (releasing l) (λ k h. ground arith) (λ d'. cc))
    ]

    Inv-release :
        (c : Choice) (l : ℕ)
        → is_seen c ≡ true
        → pc i ≡ releasing l
        → Inv nic y
            (rdma_release_rlock nic y c m l).0
            (update pc i (rdma_release_rlock nic y c m l).1)
    unfolding rdma_release_rlock
    Inv-release lost l ok e = (stay nic y fits v i) (exited (some l)) (λ k h. ground arith) tt
    Inv-release cut_off l ok e = (clear nic y fits v i) l (exited none) e refl tt
    Inv-release (unseen carried) l ok e = absurd (ground arith)
    Inv-release c l ok e = (clear nic y fits v i) l idle e refl tt

    Inv-increment :
        (l k tries : ℕ)
        → pc i ≡ inside l tries
        → Inv nic y
            (increment nic y (m.int_data (y.client_of i) l) m l k tries).0
            (update pc i (increment nic y (m.int_data (y.client_of i) l) m l k tries).1)
    unfolding increment
    Inv-increment l k tries e = elim (Bool-cases (has_data l)) [
      | inl d ↦
          rw (own_pointer l (subst (Local nic y m i) e (v.locals i)) d)
            ((bump nic y fits v i) l k tries e d)
      | inr d ↦
          rw (v.unset (y.client_of i) l d)
            ((stay nic y fits v i) (exited (some l)) (λ k h. ground arith) tt)
    ]

    pub Inv-step :
        (c : Choice) (p : Pc)
        → is_seen c ≡ true
        → pc i ≡ p
        → Inv nic y (step nic y i c m p).0 (update pc i (step nic y i c m p).1)
    unfolding step
    Inv-step (request x l) idle ok e = (stay nic y fits v i) (casing x l 0 bo) (λ k h. cc) tt
    Inv-step c idle ok e = (stay nic y fits v i) idle (λ k h. cc) tt
    Inv-step c (casing x l tries delay) ok e = Inv-cas c x l tries delay ok e
    Inv-step c (pausing l tries delay zero) ok e =
        (stay nic y fits v i) (casing spinlock_bo l tries (longer delay)) (λ k h. cc) tt
    Inv-step c (pausing l tries delay (suc left)) ok e =
        (stay nic y fits v i) (pausing l tries delay left) (λ k h. cc) tt
    Inv-step c (reading l tries) ok e = Inv-read c l tries ok e
    Inv-step (work k) (inside l tries) ok e = elim (Bool-cases (ltb (4 * k) y.data_len)) [
      | inl t ↦ rw t (Inv-increment l k tries e)
      | inr t ↦ rw t (
          (stay nic y fits v i) (inside l tries) (λ k' h. ground arith)
            (subst (Local nic y m i) e (v.locals i)))
    ]
    Inv-step release (inside l tries) ok e =
        (stay nic y fits v i) (writing l) (λ k h. ground arith)
          (subst (Local nic y m i) e (v.locals i))
    Inv-step c (inside l tries) ok e =
        (stay nic y fits v i) (inside l tries) (λ k h. ground arith)
          (subst (Local nic y m i) e (v.locals i))
    Inv-step c (writing l) ok e = Inv-write c l ok e
    Inv-step c (releasing l) ok e = Inv-release c l ok e
    Inv-step c (exited h) ok e = (stay nic y fits v i) (exited h) (λ k h'. ground arith) tt
