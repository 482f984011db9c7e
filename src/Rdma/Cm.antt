-- ===== src/Rdma/Cm.antt =====
-- `process_rdma_cm_event` of litl2/src/rdma_common.c: wait for one connection event.
use dal.Prelude.{
  ℕ, zero, suc, refl, ◌≡◌, ◌↔◌, ◌≢◌, Bool, true, false, not, ◌==◌, if◌then◌else◌, arith, ℤ, pos,
  negsuc, neg, is_zero,
}

-- What the event channel delivers: whether `rdma_get_cm_event` returned 0, the event and its status.
pub record Delivery : Type 0 where
  pub retrieved : Bool
  pub errno : ℕ
  pub status : ℤ
  pub event : ℕ

-- The return value, and whether the event was acknowledged.
unfoldable pub process_rdma_cm_event : Delivery → (expected : ℕ) → ℤ × Bool
process_rdma_cm_event d expected =
    if not d.retrieved
    then (neg (pos d.errno), false)
    else if not (is_zero d.status)
    then (neg d.status, true)
    else if d.event == expected
    then (pos 0, false)
    else (negsuc 0, true)

neg-is_zero : (z : ℤ) → is_zero (neg z) ≡ is_zero z
neg-is_zero (pos zero) = refl
neg-is_zero (pos (suc n)) = refl
neg-is_zero (negsuc n) = refl

pos-is_zero : (n : ℕ) → n ≢ 0 → is_zero (pos n) ≡ false
pos-is_zero zero h = absurd (h refl)
pos-is_zero (suc n) h = refl

-- Where a failed `rdma_get_cm_event` sets errno, the call returns 0 exactly if the expected event arrived with status 0, and it acknowledges exactly the events that it retrieved and refuses.
pub process_rdma_cm_event_lem :
    (d : Delivery) (expected : ℕ)
    → d.errno ≢ 0
    → ((is_zero (process_rdma_cm_event d expected).0 ≡ true)
        ↔ (d.retrieved ≡ true) × (is_zero d.status ≡ true) × (d.event ≡ expected))
      × (((process_rdma_cm_event d expected).1 ≡ true)
          ↔ (d.retrieved ≡ true) × (is_zero (process_rdma_cm_event d expected).0 ≡ false))
unfolding process_rdma_cm_event
process_rdma_cm_event_lem d expected set =
    ground (arith, neg-is_zero d.status, neg-is_zero (pos d.errno), pos-is_zero d.errno)
