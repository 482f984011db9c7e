-- ===== src/Lock/Cohort.antt =====
-- What the cohort locks of litl2/src share: a lock for each NUMA node, seen with the threads of that
-- node only, and the batch count of a node.
use dal.Prelude.{
  ℕ, zero, suc, ◌≡◌, refl, Bool, true, false, update, fun_ext, ◌==◌, if◌then◌else◌, Bool-cases, inl,
  inr, ==_iff, ==_refl, sym, ℤ, pos, negsuc,
}
use dal.Lock.Raw.{Raw, idle}

abbrev pub decrement : ℤ → ℤ
decrement (pos zero) = negsuc 0
decrement (pos (suc n)) = pos n
decrement (negsuc n) = negsuc (suc n)

abbrev pub is_natural : ℤ → Bool
is_natural (pos n) = true
is_natural (negsuc n) = false

-- lock or trylock
pub data Mode : Type 0 where
  by_lock by_trylock : Mode

module _ {P Q R : Type 0} (place : P → Raw Q R) (node : ℕ → ℕ) where
  -- The threads of node `k`, in its lock.
  abbrev pub side : ℕ → (ℕ → P) → ℕ → Raw Q R
  side k pc j = if node j == k then place (pc j) else idle

  pub side-update :
      (pc : ℕ → P) (i : ℕ) (p' : P)
      → side (node i) (update pc i p') ≡ update (side (node i) pc) i (place p')
  side-update pc i p' = fun_ext (λ j. elim (Bool-cases (i == j)) [
    | inl e ↦ let same : i ≡ j = (==_iff i j).0 e in rw (e, sym same, ==_refl (node i)) refl
    | inr e ↦ rw e refl
  ])

  pub side-other :
      (pc : ℕ → P) (i k : ℕ) (p' : P) → (node i == k) ≡ false → side k (update pc i p') ≡ side k pc
  side-other pc i k p' differ = fun_ext (λ j. elim (Bool-cases (i == j)) [
    | inl e ↦ let same : i ≡ j = (==_iff i j).0 e in rw (e, sym same, differ) refl
    | inr e ↦ rw e refl
  ])

  -- Before the first call no thread is in the lock of any node.
  pub side-idle : {p : P} (k : ℕ) → place p ≡ idle → side k (λ _. p) ≡ (λ _. idle)
  side-idle {p} k rest =
      fun_ext (λ j. elim (Bool-cases (node j == k)) [ inl e ↦ rw e rest | inr e ↦ rw e refl ])
