-- ===== src/Rdma/Completion.antt =====
-- The helpers of litl2/src/rdma_common.c that wait for the RDMA card, and `perform_rdma_op` of
-- litl2/src/rdma_client.c. What the card and its library answer is an argument.
use dal.Prelude.{
  ℕ, zero, suc, ◌≤◌, ◌<◌, ◌≡◌, refl, Bool, true, false, not, Option, none, some, List, [], ◌∷◌,
  ◌++◌, length, All, ◌==◌, ltb, if◌then◌else◌, arith, inl, inr, Bool-cases, length-append, ltb→lt,
  ap, ℤ, pos, negsuc, neg,
}

-- IBV_WC_SUCCESS and IBV_WC_LOC_LEN_ERR of infiniband/verbs.h
abbrev pub wc_success : ℕ
wc_success = 0

abbrev pub wc_loc_len_err : ℕ
wc_loc_len_err = 1

-- An answer of `ibv_poll_cq`: an error, or the statuses of the completions that it delivers.
pub data Polled : Type 0 where
  poll_error : (code : ℕ) → Polled
  polled : (statuses : List ℕ) → Polled

-- The answers to one call of `process_work_completion_events`; `errno` is what the failing call
-- leaves.
pub record Answers : Type 0 where
  pub got_event : Bool  -- ibv_get_cq_event
  pub requested : Bool  -- ibv_req_notify_cq
  pub polls : List Polled
  pub errno : ℕ

-- The scan for a status other than success.
pub first_failure : List ℕ → Option ℕ
first_failure [] = none
first_failure (s ∷ ss) = if s == wc_success then first_failure ss else some s

abbrev pub scanned : ℕ → Option ℕ → ℤ
scanned total none = pos total
scanned total (some s) = pos s

-- The loop on `ibv_poll_cq`; `none` while the card has answered too few polls.
unfoldable pub poll_loop : List Polled → (max_wc : ℕ) → List ℕ → Option ℤ
unfolding first_failure
poll_loop [] max_wc wc = none
poll_loop (poll_error code ∷ ps) max_wc wc = some (negsuc code)
poll_loop (polled ss ∷ ps) max_wc wc =
    let more = poll_loop ps max_wc (wc ++ ss) in
    if ltb (length (wc ++ ss)) max_wc
    then more
    else some (scanned (length (wc ++ ss)) (first_failure (wc ++ ss)))

unfoldable pub process_work_completion_events : Answers → (max_wc : ℕ) → Option ℤ
unfolding poll_loop
process_work_completion_events a max_wc =
    if not a.got_event
    then some (neg (pos a.errno))
    else if not a.requested
    then some (neg (pos a.errno))
    else poll_loop a.polls max_wc []

abbrev pub is_one : ℤ → Bool
is_one (pos n) = n == 1
is_one (negsuc n) = false

-- 0, or -1 where posting failed or the completion call did not return 1.
abbrev pub op_result : Option ℤ → Option ℤ
op_result none = none
op_result (some r) = some (if is_one r then pos 0 else negsuc 0)

unfoldable pub perform_rdma_op : (posted : Bool) → Answers → Option ℤ
unfolding process_work_completion_events
perform_rdma_op posted a =
    if not posted then some (negsuc 0) else op_result (process_work_completion_events a 1)

-- The polls that a call for one completion sees: some that deliver nothing, then one that delivers it.
abbrev pub one_completion : ℕ → ℕ → List Polled
one_completion zero s = polled (s ∷ []) ∷ []
one_completion (suc n) s = polled [] ∷ one_completion n s

poll_loop-one :
    (n s : ℕ) → poll_loop (one_completion n s) 1 [] ≡ some (pos (if s == 0 then 1 else s))
unfolding poll_loop
poll_loop-one zero s = ground arith
poll_loop-one (suc n) s = poll_loop-one n s

-- A posted operation whose completion arrives after any number of empty polls ends, with 0 where its status is 0 (success) or 1 (IBV_WC_LOC_LEN_ERR) and with -1 at every other status: the call returns the status of a failed completion, and 1 is also the count of completions that its caller expects.
pub perform_rdma_op-status :
    (errno n s : ℕ)
    → perform_rdma_op true
        (record { got_event = true; requested = true; polls = one_completion n s; errno = errno })
      ≡ some (if s == wc_success then pos 0 else if s == wc_loc_len_err then pos 0 else negsuc 0)
unfolding perform_rdma_op
perform_rdma_op-status errno n s = rw (poll_loop-one n s) (ground arith)

-- What a row of polls delivers in all, after `wc`.
abbrev pub delivered : List (List ℕ) → List ℕ → List ℕ
delivered [] wc = wc
delivered (ss ∷ rest) wc = delivered rest (wc ++ ss)

abbrev pub all_polled : List (List ℕ) → List Polled
all_polled [] = []
all_polled (ss ∷ rest) = polled ss ∷ all_polled rest

All-append {ℓ κ} :
    {A : Type ℓ} (P : A → Type κ) (xs ys : List A) → All P xs → All P ys → All P (xs ++ ys)
All-append P [] ys h k = k
All-append P (x ∷ xs) ys h k = (h.0, All-append P xs ys h.1 k)

first_failure-none : (ss : List ℕ) → All (λ s. s ≡ wc_success) ss → first_failure ss ≡ none
unfolding first_failure
first_failure-none [] h = refl
first_failure-none (s ∷ ss) h = rw h.0 (first_failure-none ss h.1)

length-delivered : (bs : List (List ℕ)) (wc : List ℕ) → length wc ≤ length (delivered bs wc)
length-delivered [] wc = omega arith
length-delivered (ss ∷ bs) wc = omega (arith, length-delivered bs (wc ++ ss), length-append wc ss)

poll_loop-All :
    (bs : List (List ℕ)) (max_wc : ℕ) (wc : List ℕ)
    → All (All (λ s. s ≡ wc_success)) bs
    → All (λ s. s ≡ wc_success) wc
    → length wc < max_wc
    → length (delivered bs wc) ≡ max_wc
    → poll_loop (all_polled bs) max_wc wc ≡ some (pos max_wc)
unfolding poll_loop
poll_loop-All [] max_wc wc h k lt e = absurd (omega arith)
poll_loop-All (ss ∷ bs) max_wc wc h k lt e = elim (Bool-cases (ltb (length (wc ++ ss)) max_wc)) [
  | inl more ↦
      rw more
        (poll_loop-All bs max_wc (wc ++ ss) h.1 (All-append _ wc ss k h.0) (ltb→lt _ _ more) e)
  | inr enough ↦
      rw (enough, first_failure-none (wc ++ ss) (All-append _ wc ss k h.0))
        (ap (λ n. some (pos n)) (ground (arith, length-delivered bs (wc ++ ss))))
]

-- However the card spreads its completions over the polls: if all are successful and `max_wc` of them arrive, with at least one to wait for, then the call ends and returns `max_wc`.
pub process_work_completion_events-All :
    (errno : ℕ) (bs : List (List ℕ)) (max_wc : ℕ)
    → All (All (λ s. s ≡ wc_success)) bs
    → 0 < max_wc
    → length (delivered bs []) ≡ max_wc
    → process_work_completion_events
        (record { got_event = true; requested = true; polls = all_polled bs; errno = errno })
        max_wc
      ≡ some (pos max_wc)
unfolding process_work_completion_events
process_work_completion_events-All errno bs max_wc h p e = poll_loop-All bs max_wc [] h tt p e
