-- ===== src/Tests/Benchmark.antt =====
-- Pinned threads and small result tables.
use dal.Prelude.{ℕ, ◌+◌, ◌*◌, ◌%◌, ◌^◌, ◌≡◌, ◌↔◌, true}
use dal.Bench.Results.{sum_below, check_correctness, check_correctness_iff}

abbrev table : ℕ → ℕ → ℕ
table i x = i * 10 + x

check_correctness_iff_example :
    (check_correctness 6 3 (λ i. 2) (λ i. 2) ≡ true)
    ↔ (sum_below 3 (λ i. 2) % 2 ^ 64 ≡ 6) × (sum_below 3 (λ i. 2) % 2 ^ 64 ≡ 6)
check_correctness_iff_example = check_correctness_iff 6 3 (λ i. 2) (λ i. 2)
