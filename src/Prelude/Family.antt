-- ===== src/Prelude/Family.antt =====
-- Families `ℕ → A` indexed by thread or address: the update of one place, and a count over the
-- first places.
use Prim.Native.Nat.{ℕ, zero, suc, ◌+◌, ◌≤◌, ◌<◌}
use mathlib.Core.Path.{◌≡◌, refl, sym, ap, ◌∙◌, fun_ext}
use mathlib.Core.Logic.{inl, inr}
use mathlib.Core.Bool.{Bool, true, false}
use native.Mathlib.Omega.{arith}
use native.Mathlib.Decide.{dec_lt}
use dal.Prelude.Tests.{◌==◌, if◌then◌else◌, Bool-cases, ==_iff}

abbrev pub update {ℓ} : {A : Type ℓ} → (ℕ → A) → ℕ → A → ℕ → A
update f i a j = if i == j then a else f j

-- A map over a family commutes with an update.
pub map-update {ℓ κ} :
    {A : Type ℓ} {B : Type κ} (g : A → B) (f : ℕ → A) (i : ℕ) (a : A)
    → ◌≡◌ {A = ℕ → B} (λ j. g (update f i a j)) (update (λ j. g (f j)) i (g a))
map-update g f i a = fun_ext (λ j. elim (Bool-cases (i == j)) [ inl e ↦ rw e | inr e ↦ rw e ])

abbrev pub to_nat : Bool → ℕ
to_nat true = 1
to_nat false = 0

-- How many of the places below `n` pass the test.
module _ {ℓ} {A : Type ℓ} (test : A → Bool) where
  pub tally : ℕ → (ℕ → A) → ℕ
  tally zero f = 0
  tally (suc n) f = to_nat (test (f n)) + tally n f

  pub tally-le : (n : ℕ) (f : ℕ → A) → tally n f ≤ n
  unfolding tally
  tally-le zero f = omega arith
  tally-le (suc n) f = ground (arith, tally-le n f)

  pub tally-none : (n : ℕ) (f : ℕ → A) → ((i : ℕ) → test (f i) ≡ false) → tally n f ≡ 0
  unfolding tally
  tally-none zero f h = refl
  tally-none (suc n) f h = ground (arith, h n, tally-none n f h)

  tally-beyond : (n : ℕ) (f : ℕ → A) (i : ℕ) (a : A) → n ≤ i → tally n (update f i a) ≡ tally n f
  unfolding tally
  tally-beyond zero f i a h = refl
  tally-beyond (suc n) f i a h = ground (arith, tally-beyond n f i a)

  -- An update trades the old value's share for the new one's.
  pub tally-update :
      (n : ℕ) (f : ℕ → A) (i : ℕ) (a : A)
      → i < n
      → tally n (update f i a) + to_nat (test (f i)) ≡ tally n f + to_nat (test a)
  unfolding tally
  tally-update zero f i a h = absurd (omega arith)
  tally-update (suc n) f i a h = elim (dec_lt i n) [
    | yes below ↦ ground (arith, tally-update n f i a below)
    | no last ↦ ground (arith, tally-beyond n f i a)
  ]

pub update_same {ℓ} : {A : Type ℓ} (f : ℕ → A) (i : ℕ) (a : A) → f i ≡ a → update f i a ≡ f
update_same f i a h = fun_ext (λ j. elim (Bool-cases (i == j)) [
  | inl e ↦ rw e (sym h ∙ ap f ((==_iff i j).0 e))
  | inr e ↦ rw e
])

pub update_twice {ℓ} :
    {A : Type ℓ} (f : ℕ → A) (i : ℕ) (a b : A) → update (update f i a) i b ≡ update f i b
update_twice f i a b =
    fun_ext (λ j. elim (Bool-cases (i == j)) [ inl e ↦ rw e refl | inr e ↦ rw e refl ])
