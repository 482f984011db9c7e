-- ===== src/Bench/Results.antt =====
-- `write_res_cum` and `check_correctness` of litl2/src/utils.c: the counts, 64 bits wide; the
-- times, which are printed as floats, are left out.
use dal.Prelude.{
  ℕ, zero, suc, ◌+◌, ◌*◌, ◌%◌, ◌^◌, ◌<◌, ◌≡◌, ◌↔◌, refl, ap, sym, ◌∙◌, fun_ext, Bool, true, ◌&&◌,
  List, [], ◌∷◌, ◌++◌, ◌==◌, length, length-append, arith,
}

abbrev pub u64 : ℕ → ℕ
u64 x = x % 2 ^ 64

-- for (int i = 0; i < n; i++) acc = f(i, acc);
unfoldable pub for_each {ℓ} : {A : Type ℓ} → ℕ → (ℕ → A → A) → A → A
for_each zero f a = a
for_each (suc n) f a = f n (for_each n f a)

-- A row of the result file: thread, place in its arrays, run.
pub record Row : Type 0 where
  pub thread : ℕ
  pub idx : ℕ
  pub run : ℕ

pub record Written : Type 0 where
  pub rows : List Row
  pub total_lock_acq : ℕ

-- The sum of the first places.
unfoldable pub sum_below : ℕ → (ℕ → ℕ) → ℕ
sum_below zero f = 0
sum_below (suc n) f = sum_below n f + f n

sum_below-zero : (n : ℕ) → sum_below n (λ i. 0) ≡ 0
unfolding sum_below
sum_below-zero zero = refl
sum_below-zero (suc n) = omega (arith, sum_below-zero n)

sum_below-add : (n : ℕ) (f g : ℕ → ℕ) → sum_below n (λ i. f i + g i) ≡ sum_below n f + sum_below n g
unfolding sum_below
sum_below-add zero f g = omega arith
sum_below-add (suc n) f g = omega (arith, sum_below-add n f g)

sum_below-split :
    (m n : ℕ) (f : ℕ → ℕ) → sum_below (m + n) f ≡ sum_below m f + sum_below n (λ l. f (m + l))
unfolding sum_below
sum_below-split m zero f = let e : m + 0 ≡ m = omega arith in rw e (omega arith)
sum_below-split m (suc n) f =
    let e : m + suc n ≡ suc (m + n) = omega arith in rw e (omega (arith, sum_below-split m n f))

-- Runs before threads, or threads before runs.
sum_below-swap :
    (nthreads num_runs snd_runs : ℕ) (a : ℕ → ℕ → ℕ)
    → sum_below num_runs
        (λ j. sum_below nthreads (λ i. sum_below snd_runs (λ l. a i (j * snd_runs + l))))
      ≡ sum_below nthreads (λ i. sum_below (num_runs * snd_runs) (a i))
unfolding sum_below
sum_below-swap nthreads zero snd_runs a =
    let e : 0 * snd_runs ≡ 0 = omega arith in rw e (sym (sum_below-zero nthreads))
sum_below-swap nthreads (suc num_runs) snd_runs a =
    let e : suc num_runs * snd_runs ≡ num_runs * snd_runs + snd_runs = omega arith in
    rw (e, sum_below-swap nthreads num_runs snd_runs a)
      (sym (sum_below-add nthreads _ _)
        ∙ ap (sum_below nthreads)
            (fun_ext (λ i. sym (sum_below-split (num_runs * snd_runs) snd_runs (a i)))))

module _ (lock_acquires : ℕ → ℕ → ℕ) where
  unfoldable pub write_row : (snd_runs j i l : ℕ) → Written → Written
  write_row snd_runs j i l w = record {
    rows = w.rows ++ record { thread = i; idx = j * snd_runs + l; run = j } ∷ [];
    total_lock_acq = u64 (w.total_lock_acq + lock_acquires i (j * snd_runs + l));
  }

  unfoldable pub write_res_cum : (nthreads num_runs snd_runs : ℕ) → Written
  unfolding for_each write_row
  write_res_cum nthreads num_runs snd_runs =
      for_each num_runs
        (λ j. for_each nthreads (λ i. for_each snd_runs (λ l. write_row snd_runs j i l)))
        (record { rows = []; total_lock_acq = 0 })

  Total : Written → ℕ → ℕ → Written → Type 0
  Total w g r w' =
      (w'.total_lock_acq < 2 ^ 64)
      × (w'.total_lock_acq ≡ u64 (w.total_lock_acq + g))
      × (length w'.rows ≡ length w.rows + r)

  -- The code adds `g` to the total and `r` rows.
  Counts : (Written → Written) → ℕ → ℕ → Type 0
  Counts f g r = (w : Written) → w.total_lock_acq < 2 ^ 64 → Total w g r (f w)

  Counts-each :
      (n : ℕ) (f : ℕ → Written → Written) (g : ℕ → ℕ) (r : ℕ)
      → ((i : ℕ) → Counts (f i) (g i) r)
      → Counts (for_each n f) (sum_below n g) (n * r)
  unfolding Counts Total for_each sum_below
  Counts-each zero f g r h w lt = (lt, omega arith, omega arith)
  Counts-each (suc n) f g r h w lt =
      let a = Counts-each n f g r h w lt in
      let b = h n (for_each n f w) a.0 in (b.0, omega (arith, a.1, b.1), omega (arith, a.2, b.2))

  Counts-row :
      (snd_runs j i l : ℕ)
      → Counts (write_row snd_runs j i l) (lock_acquires i (j * snd_runs + l)) 1
  unfolding Counts Total write_row
  Counts-row snd_runs j i l w lt = (omega arith, refl, length-append w.rows _)

  -- The total is the sum over runs, threads and rounds, and there is a row for each.
  runs-Total :
      (nthreads num_runs snd_runs : ℕ)
      → Total
          (record { rows = []; total_lock_acq = 0 })
          (sum_below num_runs (λ j.
            sum_below nthreads (λ i. sum_below snd_runs (λ l. lock_acquires i (j * snd_runs + l)))))
          (num_runs * (nthreads * (snd_runs * 1)))
          (write_res_cum nthreads num_runs snd_runs)
  unfolding write_res_cum Counts
  runs-Total nthreads num_runs snd_runs =
      Counts-each num_runs _ _ (nthreads * (snd_runs * 1))
        (λ j.
          Counts-each nthreads _ _ (snd_runs * 1)
            (λ i. Counts-each snd_runs _ _ 1 (λ l. Counts-row snd_runs j i l)))
        (record { rows = []; total_lock_acq = 0 }) (omega arith)

-- `write_res_cum` returns the sum of every thread's acquisitions in the places below `num_runs * snd_runs`, modulo 2 ^ 64, and writes one row for each of these places.
pub write_res_cum-total :
    (lock_acquires : ℕ → ℕ → ℕ) (nthreads num_runs snd_runs : ℕ)
    → ((write_res_cum lock_acquires nthreads num_runs snd_runs).total_lock_acq
        ≡ sum_below nthreads (λ i. sum_below (num_runs * snd_runs) (lock_acquires i)) % 2 ^ 64)
      × (length (write_res_cum lock_acquires nthreads num_runs snd_runs).rows
          ≡ nthreads * (num_runs * snd_runs))
unfolding Total
write_res_cum-total lock_acquires nthreads num_runs snd_runs =
    let t = runs-Total lock_acquires nthreads num_runs snd_runs in
    (
      omega (arith, t.1, sum_below-swap nthreads num_runs snd_runs lock_acquires),
      omega (arith, t.2),
    )

-- The two assertions of `check_correctness`.
unfoldable pub check_correctness : (total_acq nlocks : ℕ) (lock_acqs lock_rels : ℕ → ℕ) → Bool
unfolding for_each
check_correctness total_acq nlocks lock_acqs lock_rels =
    let acqs = for_each nlocks (λ i s. u64 (s + lock_acqs i)) 0 in
    let rels = for_each nlocks (λ i s. u64 (s + lock_rels i)) 0 in
    (acqs == rels) && (acqs == total_acq)

sum_u64 : (n : ℕ) (f : ℕ → ℕ) → for_each n (λ i s. u64 (s + f i)) 0 ≡ sum_below n f % 2 ^ 64
unfolding for_each sum_below
sum_u64 zero f = omega arith
sum_u64 (suc n) f = omega (arith, sum_u64 n f)

-- The assertions hold exactly if the acquisitions and the releases of the locks each add up to the total, modulo 2 ^ 64.
pub check_correctness_iff :
    (total_acq nlocks : ℕ) (lock_acqs lock_rels : ℕ → ℕ)
    → (check_correctness total_acq nlocks lock_acqs lock_rels ≡ true)
      ↔ (sum_below nlocks lock_acqs % 2 ^ 64 ≡ total_acq)
        × (sum_below nlocks lock_rels % 2 ^ 64 ≡ total_acq)
unfolding check_correctness
check_correctness_iff total_acq nlocks lock_acqs lock_rels =
    ground (arith, sum_u64 nlocks lock_acqs, sum_u64 nlocks lock_rels)
