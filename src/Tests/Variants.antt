-- ===== src/Tests/Variants.antt =====
-- The locks after libslock under short schedules.
use dal.Prelude.{
  ℕ, ◌≤◌, ◌<◌, ◌≡◌, ◌≢◌, ◌↔◌, refl, true, Option, none, some, ◌%◌, List, [], ◌∷◌, arith,
}
use dal.Interleave.{turn, run}
use dal.Posix.{owner_cell}
use dal.Lock.Raw.{polling, held, acquired}
use dal.Lock.Word.{locked, unlocked}
use dal.Lock.Mcs
use dal.Lock.Backoff
use dal.Lock.Cbomcs
use dal.Lock.Cbomcs.Steps.{cbomcs}
use dal.Lock.Wrapper.{
  Choice, call_lock, call_trylock, call_unlock, proceed, raw_of, step, take_posix,
}
use dal.Lock.Invariant.{reached}
use dal.Lock.Alockepfl
use dal.Lock.Alockepfl.{
  Slots, created, watch, OneOpen, left, left-OneOpen, first_call, second_call, both_let_in,
}
use dal.Lock.Ttasepfl
use dal.Lock.Ttasepfl.{Seeds, ttasepfl}
use dal.Lock.Variants.{ttasepfl_limit-bounds, cbomcs_handover}

abbrev seeded : ℕ → Seeds
seeded i = record { x = 123456789; y = 362436069; z = 521288629 }

-- Thread 1 finds the word free, but thread 0 takes it.
abbrev overtaken : List (ℕ × Choice)
overtaken = (1, call_lock) ∷ (1, proceed) ∷ (0, call_trylock) ∷ (0, proceed) ∷ (1, proceed) ∷ []

overtaken_1 :
    raw_of ((reached (ttasepfl seeded) owner_cell overtaken).pc 1) ≡ polling (Ttasepfl.pause 0)
unfolding run turn step take_posix Ttasepfl.poll Ttasepfl.leave Ttasepfl.xorshf96
overtaken_1 = refl

ttasepfl_limit-bounds_example :
    (0 < Ttasepfl.max_delay)
    × (1 ≤ (reached (ttasepfl seeded) owner_cell overtaken).mem.raw.limit 1)
    × ((reached (ttasepfl seeded) owner_cell overtaken).mem.raw.limit 1 ≤ Ttasepfl.max_delay)
ttasepfl_limit-bounds_example =
    ttasepfl_limit-bounds owner_cell 2 overtaken (ground arith) seeded 1 0 overtaken_1

-- Threads 0 and 2 of one node take the cohort lock in turn, until thread 2 leaves the upper lock to thread 0.
abbrev no_next : ℕ → Option ℕ
no_next i = none

abbrev zeros : ℕ → ℕ
zeros i = 0

abbrev even : ℕ → ℕ
even i = i % 2

abbrev in_turn : List (ℕ × Choice)
in_turn =
    (0, call_lock)
    ∷ (0, proceed)
    ∷ (0, proceed)
    ∷ (0, proceed)
    ∷ (0, proceed)
    ∷ (0, proceed)
    ∷ (0, proceed)
    ∷ (0, proceed)
    ∷ (0, proceed)
    ∷ (2, call_lock)
    ∷ (2, proceed)
    ∷ (2, proceed)
    ∷ (2, proceed)
    ∷ (2, proceed)
    ∷ (0, call_unlock)
    ∷ (0, proceed)
    ∷ (0, proceed)
    ∷ (0, proceed)
    ∷ (0, proceed)
    ∷ (0, proceed)
    ∷ (0, proceed)
    ∷ (0, proceed)
    ∷ (0, proceed)
    ∷ (2, proceed)
    ∷ (2, proceed)
    ∷ (2, proceed)
    ∷ (2, proceed)
    ∷ (2, proceed)
    ∷ (2, proceed)
    ∷ (0, call_lock)
    ∷ (0, proceed)
    ∷ (0, proceed)
    ∷ (0, proceed)
    ∷ (0, proceed)
    ∷ (2, call_unlock)
    ∷ (2, proceed)
    ∷ (2, proceed)
    ∷ (2, proceed)
    ∷ (2, proceed)
    ∷ []

in_turn_0 : (reached (cbomcs even no_next zeros) owner_cell in_turn).mem.raw.top_grant 0 ≡ true
unfolding run turn step take_posix Cbomcs.poll Cbomcs.leave Mcs.poll Mcs.leave Backoff.poll
in_turn_0 = refl

cbomcs_handover_example :
    ((reached (cbomcs even no_next zeros) owner_cell in_turn).mem.raw.top_word ≢ unlocked)
    × ((reached (cbomcs even no_next zeros) owner_cell in_turn).mem.raw.top_home ≡ some 0)
    × (((reached (cbomcs even no_next zeros) owner_cell in_turn).mem.raw.local_locks 0).tail ≢ none)
    × ((j : ℕ) → raw_of ((reached (cbomcs even no_next zeros) owner_cell in_turn).pc j) ≢ held)
cbomcs_handover_example =
    cbomcs_handover owner_cell 3 in_turn (ground arith) even no_next zeros 0 in_turn_0

abbrev zeroed_slots : Slots
zeroed_slots = created zeros

zeroed-OneOpen : OneOpen zeroed_slots 0
zeroed-OneOpen = record { opened = refl; closed = λ k lt ne. ground arith }

left-OneOpen_example :
    OneOpen (left 0 zeroed_slots) 1
    × (((Alockepfl.poll 1 (left 0 zeroed_slots) (watch 2)).1 ≡ acquired) ↔ ◌≡◌ {A = ℕ} 2 1)
left-OneOpen_example =
    left-OneOpen 0 1 0 2 zeroed_slots (omega arith) (omega arith) refl zeroed-OneOpen

-- Memory that held sevens before a new lock.
abbrev sevens : ℕ → ℕ
sevens k = 7

both_let_in_example :
    ((first_call 0 sevens).1 ≡ acquired)
    × (((second_call 0 1 sevens).1 ≡ acquired) ↔ (◌≢◌ {A = ℕ} 7 locked))
both_let_in_example = both_let_in 0 1 sevens
