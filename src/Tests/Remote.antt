-- ===== src/Tests/Remote.antt =====
-- Client threads on a memory node of plain cells, and answers of the RDMA card.
use dal.Prelude.{
  ℕ, ◌+◌, ◌*◌, ◌^◌, ◌%◌, ◌<◌, ◌≡◌, ◌≢◌, ◌↔◌, refl, true, false, some, List, [], ◌∷◌, ◌++◌, arith,
  ◌==◌, if◌then◌else◌, pos, negsuc, is_zero,
}
use dal.Interleave.{turn, run}
use dal.Rdma.Nic.{Cells, cells}
use dal.Rdma.Client.{
  Layout, rlock_addr, data_addr, has_data, Variant, inside, exited, Choice, request, work, release,
  done, cut_off, unseen, step, rdma_cas, read_block, rdma_read_data, bumped, increment, written,
  write_from, rdma_write_data, rdma_release_rlock,
}
use dal.Rdma.Invariant.{holds}
use dal.Rdma.Safety.{
  reached, has_data_iff, remote_exclusion, no_lost_update, inside_sees_all, orphaned_lock,
}
use dal.Rdma.Completion.{
  wc_success, wc_loc_len_err, one_completion, all_polled, process_work_completion_events,
  perform_rdma_op, perform_rdma_op-status, process_work_completion_events-All,
}
use dal.Rdma.Cm.{process_rdma_cm_event, process_rdma_cm_event_lem}

abbrev layout : Layout
layout = record { rlock_base = 0; data_base = 0; data_len = 8; client_of = λ i. 0 }

abbrev zeroed : Cells
zeroed = record { words = λ a. 0; ints = λ a. 0 }

-- Thread 0 takes lock 1, thread 1 tries, thread 0 is inside and increments.
abbrev entered : List (ℕ × Choice)
entered =
    (0, request Variant.spinlock 1)
    ∷ (0, done)
    ∷ (1, request Variant.lease1 1)
    ∷ (1, done)
    ∷ (0, done)
    ∷ (0, work 0)
    ∷ []

entered_0 : (reached cells layout zeroed entered).pc 0 ≡ inside 1 1
unfolding run turn step rdma_cas rdma_read_data read_block has_data increment
entered_0 = refl

entered-holds : holds ((reached cells layout zeroed entered).pc 0) ≡ some 1
unfolding run turn step rdma_cas rdma_read_data read_block has_data increment
entered-holds = refl

remote_exclusion_example :
    (holds ((reached cells layout zeroed entered).pc 1) ≢ some 1)
    × ((reached cells layout zeroed entered).mem.remote.words (rlock_addr layout 1) ≢ 0)
remote_exclusion_example =
    remote_exclusion cells layout zeroed (omega arith) (λ a. refl) (λ a. refl) entered
      (ground arith) 0 1 1 (omega arith) entered-holds

inside_sees_all_example :
    ((reached cells layout zeroed entered).mem.int_data 0 1 ≡ some 0)
    × ((reached cells layout zeroed entered).mem.buffer 0 0
        ≡ (reached cells layout zeroed entered).mem.made 1 0 % 2 ^ 32)
inside_sees_all_example =
    inside_sees_all cells layout zeroed (omega arith) (λ a. refl) (λ a. refl) entered (ground arith)
      0 1 1 0 (omega arith) (omega arith) entered_0

-- Thread 0 has released lock 1 again.
abbrev released : List (ℕ × Choice)
released = entered ++ (0, release) ∷ (0, done) ∷ (0, done) ∷ []

released_word : (reached cells layout zeroed released).mem.remote.words (rlock_addr layout 1) ≡ 0
unfolding run turn step rdma_cas rdma_read_data read_block has_data increment bumped rdma_write_data
    write_from written rdma_release_rlock
released_word = refl

no_lost_update_example :
    (reached cells layout zeroed released).mem.remote.ints (data_addr layout 1 + 4 * 0)
    ≡ (reached cells layout zeroed released).mem.made 1 0 % 2 ^ 32
no_lost_update_example =
    no_lost_update cells layout zeroed (omega arith) (λ a. refl) (λ a. refl) released (ground arith)
      1 0 (omega arith) (omega arith) released_word

-- Thread 0 loses its read; thread 1 comes later.
abbrev broken : List (ℕ × Choice)
broken = (0, request Variant.spinlock 1) ∷ (0, done) ∷ (0, cut_off) ∷ []

abbrev later : List (ℕ × Choice)
later = (1, request Variant.spinlock_bo 1) ∷ (1, done) ∷ []

broken_0 : (reached cells layout zeroed broken).pc 0 ≡ exited (some 1)
unfolding run turn step rdma_cas rdma_read_data read_block has_data
broken_0 = refl

orphaned_lock_example :
    ((reached cells layout zeroed (broken ++ later)).mem.remote.words (rlock_addr layout 1) ≢ 0)
    × (holds ((reached cells layout zeroed (broken ++ later)).pc 1) ≢ some 1)
orphaned_lock_example =
    orphaned_lock cells layout zeroed (omega arith) (λ a. refl) (λ a. refl) broken later 0 1 1
      (ground arith) broken_0 (omega arith)

-- The first compare-and-swap of thread 1 fails with IBV_WC_LOC_LEN_ERR: two threads are inside lock 1.
abbrev both_in : List (ℕ × Choice)
both_in =
    (0, request Variant.spinlock 1)
    ∷ (0, done)
    ∷ (0, done)
    ∷ (1, request Variant.lease1 1)
    ∷ (1, unseen false)
    ∷ (1, done)
    ∷ []

both_in_1 :
    (holds ((reached cells layout zeroed both_in).pc 0) ≡ some 1)
    × (holds ((reached cells layout zeroed both_in).pc 1) ≡ some 1)
unfolding run turn step rdma_cas rdma_read_data read_block has_data increment
both_in_1 = (refl, refl)

has_data_iff_example : (has_data 5000 ≡ true) ↔ (5000 % 8192 < 4096)
has_data_iff_example = has_data_iff 5000

process_work_completion_events-All_example :
    process_work_completion_events
      (record {
        got_event = true;
        requested = true;
        polls = all_polled ([] ∷ (0 ∷ []) ∷ (0 ∷ []) ∷ []);
        errno = 5;
      })
      2
    ≡ some (pos 2)
process_work_completion_events-All_example =
    process_work_completion_events-All 5 ([] ∷ (0 ∷ []) ∷ (0 ∷ []) ∷ []) 2 (ground arith)
      (omega arith) refl

-- A completion with IBV_WC_LOC_LEN_ERR after three empty polls.
perform_rdma_op-status_example :
    perform_rdma_op true
      (record { got_event = true; requested = true; polls = one_completion 3 1; errno = 0 })
    ≡ some (if 1 == wc_success then pos 0 else if 1 == wc_loc_len_err then pos 0 else negsuc 0)
perform_rdma_op-status_example = perform_rdma_op-status 0 3 1

process_rdma_cm_event_lem_example :
    ((is_zero
          (process_rdma_cm_event
            (record { retrieved = true; errno = 11; status = pos 0; event = 2 })
            3).0
        ≡ true)
      ↔ (true ≡ true) × (is_zero (pos 0) ≡ true) × ◌≡◌ {A = ℕ} 2 3)
    × (((process_rdma_cm_event
            (record { retrieved = true; errno = 11; status = pos 0; event = 2 })
            3).1
          ≡ true)
        ↔ (true ≡ true)
          × (is_zero
                (process_rdma_cm_event
                  (record { retrieved = true; errno = 11; status = pos 0; event = 2 })
                  3).0
              ≡ false))
process_rdma_cm_event_lem_example =
    process_rdma_cm_event_lem (record { retrieved = true; errno = 11; status = pos 0; event = 2 }) 3
      (omega arith)
