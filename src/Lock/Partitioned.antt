-- ===== src/Lock/Partitioned.antt =====
-- litl2/src/partitioned.c: a ticket lock whose waiters spin on one of several grants (PTL_SLOTS of
-- them: `slots`, the number of NUMA nodes of the machine), by their ticket. The release computes
-- the next ticket as an `int`, so the index of its slot is a signed remainder.
use dal.Prelude.{
  ℕ, zero, suc, ◌+◌, ◌-◌, ◌%◌, ◌^◌, ◌<◌, ◌≡◌, ◌≢◌, ◌↔◌, ◌⊎◌, inl, inr, refl, true, false, Option,
  none, some, ltb, update, arith, ◌==◌, ==_refl, if◌then◌else◌, ℤ, pos, negsuc, neg, dec_lt,
  ℕ_discrete, subst,
}
use dal.Lock.Raw.{alone, Outcome, pending, acquired, busy}

pub record Tickets : Type 0 where
  pub request : ℕ
  pub owner_ticket : ℕ
  pub grants : ℕ → ℕ

-- `partitioned_mutex_create`: memset
abbrev pub zeroed : Tickets
zeroed = record { request = 0; owner_ticket = 0; grants = λ s. 0 }

pub data Poll : Type 0 where
  draw : Poll
  spin : (ticket : ℕ) → Poll
  own : (ticket : ℕ) → Poll
  -- the test of `partitioned_mutex_trylock`: `request`, a grant, and `request` again
  try_request : Poll
  try_grant : (request : ℕ) → Poll
  try_again : (grant : ℕ) → Poll

pub data Leave : Type 0 where
  read_owner : Leave
  store : (ticket : ℕ) → Leave
  stray : Leave  -- the store went to memory before the lock: nothing is known from there on

-- the value of a `uint32_t` as an `int`, and `%` on them
abbrev pub as_int : ℕ → ℤ
as_int t = if ltb t (2 ^ 31) then pos t else neg (pos (2 ^ 32 - t))

abbrev pub rem : ℤ → ℕ → ℤ
rem (pos a) s = pos (a % s)
rem (negsuc a) s = neg (pos (suc a % s))

-- impl->u.grants[index].grant = ticket, where `request` is what lies one slot before the grants:
-- both are the first word of a cache line
abbrev pub put_grant : Tickets → ℕ → ℤ → Tickets × Option Leave
put_grant m t (pos s) = (record m { grants = update m.grants s t }, none)
put_grant m t (negsuc zero) = (record m { request = t }, none)
put_grant m t (negsuc (suc k)) = (m, some stray)

module _ (slots : ℕ) where
  unfoldable pub poll : ℕ → Tickets → Poll → Tickets × Outcome Poll
  poll i m draw = (record m { request = (m.request + 1) % 2 ^ 32 }, pending (spin m.request))
  poll i m (spin t) = (m, pending (if m.grants (t % slots) == t then own t else spin t))
  poll i m (own t) = (record m { owner_ticket = t }, acquired)
  poll i m try_request = (m, pending (try_grant m.request))
  poll i m (try_grant r) = (m, pending (try_again (m.grants (r % slots))))
  poll i m (try_again g) = (m, if g == m.request then pending draw else busy)

  unfoldable pub leave : ℕ → Tickets → Leave → Tickets × Option Leave
  leave i m read_owner = (m, some (store ((m.owner_ticket + 1) % 2 ^ 32)))
  leave i m (store t) = put_grant m t (rem (as_int t) slots)
  leave i m stray = (m, some stray)

  spin_iff :
      (j t : ℕ) (m : Tickets)
      → ((poll j m (spin t)).1 ≡ pending (own t)) ↔ (m.grants (t % slots) ≡ t)
  unfolding poll
  spin_iff j t m = (λ h. ground arith, λ h. ground arith)

  -- A store at a remainder that is not positive.
  store_low :
      (t r : ℕ) (m : Tickets)
      → m.grants (t % slots) ≢ t
      → ((put_grant m t (neg (pos r))).0.grants (t % slots) ≡ t) ↔ ((t % slots ≡ 0) × (r ≡ 0))
  store_low t zero m waiting = (λ h. ground arith, λ h. ground arith)
  store_low t (suc zero) m waiting = (λ h. absurd (waiting h), λ h. absurd (ground arith))
  store_low t (suc (suc r)) m waiting = (λ h. absurd (waiting h), λ h. absurd (ground arith))

  store_high :
      (t : ℕ) (m : Tickets)
      → t < 2 ^ 31
      → (put_grant m t (rem (as_int t) slots)).0.grants (t % slots) ≡ t
  store_high t m low =
      let b : ltb t (2 ^ 31) ≡ true = ground arith in rw (b, ==_refl (t % slots)) refl

  as_int-high :
      (t : ℕ)
      → ¬ (t < 2 ^ 31)
      → t < 2 ^ 32
      → rem (as_int t) slots ≡ neg (pos ((2 ^ 32 - t) % slots))
  as_int-high t high small =
      let b : ltb t (2 ^ 31) ≡ false = ground arith in
      let e : 2 ^ 32 - t ≡ suc (2 ^ 32 - t - 1) = omega arith in rw (b, e) refl

  own_ticket :
      (i j t : ℕ) (m : Tickets)
      → t < 2 ^ 32
      → m.grants (t % slots) ≢ t
      → ((poll j (leave i m (store t)).0 (spin t)).1 ≡ pending (own t))
        ↔ ((t < 2 ^ 31) ⊎ ((t % slots ≡ 0) × ((2 ^ 32 - t) % slots ≡ 0)))
  unfolding leave
  own_ticket i j t m small waiting = elim (dec_lt t (2 ^ 31)) [
    | yes low ↦ (λ h. inl low, λ h. (spin_iff j t _).1 (store_high t m low))
    | no high ↦
        let low_iff = store_low t ((2 ^ 32 - t) % slots) m waiting in
        let go = as_int-high t high small in
        (
          λ h. inr (low_iff.0 (rw⁻¹ go ((spin_iff j t _).0 h))),
          λ h. elim h [
            | inl low ↦ absurd (high low)
            | inr both ↦ (spin_iff j t _).1 (rw go (low_iff.1 both))
          ],
        )
  ]

  -- A store lets in no other ticket.
  other_ticket :
      (t u : ℕ) (m : Tickets) (index : ℤ)
      → u ≢ t
      → m.grants (u % slots) ≢ u
      → (put_grant m t index).0.grants (u % slots) ≢ u
  other_ticket t u m (pos s) differ waiting = λ h. ground arith
  other_ticket t u m (negsuc zero) differ waiting = waiting
  other_ticket t u m (negsuc (suc k)) differ waiting = waiting

  -- Whom a store lets in.
  store_reaches_iff :
      (i j t u : ℕ) (m : Tickets)
      → t < 2 ^ 32
      → m.grants (u % slots) ≢ u
      → ((poll j (leave i m (store t)).0 (spin u)).1 ≡ pending (own u))
        ↔ ((u ≡ t) × ((t < 2 ^ 31) ⊎ ((t % slots ≡ 0) × ((2 ^ 32 - t) % slots ≡ 0))))
  unfolding leave
  store_reaches_iff i j t u m small waiting = elim (ℕ_discrete u t) [
    | yes same ↦
        let mine = own_ticket i j t m small (subst (λ x. m.grants (x % slots) ≢ x) same waiting) in
        rw same ((λ h. (refl, mine.0 h)), (λ h. mine.1 h.1))
    | no differ ↦ (
      λ h. absurd (other_ticket t u m (rem (as_int t) slots) differ waiting ((spin_iff j u _).0 h)),
      λ h. absurd (differ h.0),
    )
  ]

  -- Of the threads that wait and were not let in before, a release that no other thread interrupts lets in the one whose ticket follows the owner's, modulo 2 ^ 32, and no other, and it lets that one in exactly if its ticket is below 2 ^ 31, or the ticket and its distance to 2 ^ 32 are both multiples of the number of slots.
  pub grant_reaches_next_iff :
      (i j t u : ℕ) (m : Tickets)
      → (m.owner_ticket + 1) % 2 ^ 32 ≡ t
      → m.grants (u % slots) ≢ u
      → ((poll j (alone leave i 2 m (some read_owner)).0 (spin u)).1 ≡ pending (own u))
        ↔ ((u ≡ t) × ((t < 2 ^ 31) ⊎ ((t % slots ≡ 0) × ((2 ^ 32 - t) % slots ≡ 0))))
  unfolding leave alone
  grant_reaches_next_iff i j t u m next waiting =
      rw⁻¹ next (store_reaches_iff i j ((m.owner_ticket + 1) % 2 ^ 32) u m (omega arith) waiting)
