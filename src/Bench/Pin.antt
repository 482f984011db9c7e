-- ===== src/Bench/Pin.antt =====
-- `pin_thread`, `current_numa_node` and `is_power_of_2` of litl2/src/utils.c. NUMA_NODES and
-- CPU_NUMBER come from a file that the build generates; both are parameters.
use dal.Prelude.{
  ℕ, ◌+◌, ◌-◌, ◌*◌, ◌/◌, ◌%◌, ◌≤◌, ◌<◌, ◌≡◌, ◌≢◌, Option, none, some, ◌==◌, ltb, if◌then◌else◌,
  arith, dec_lt, Bool-cases, inl, inr,
}

-- The cpu that `CPU_SET` names; none where the call returns before it.
unfoldable pub pin_thread : (numa_nodes cpu_number id nthreads use_nodes : ℕ) → Option ℕ
pin_thread numa_nodes cpu_number id nthreads use_nodes =
    if numa_nodes == 1
    then none
    else if use_nodes == 2
    then (if ltb id (nthreads / numa_nodes)
        then some (2 * id)
        else if id % 2 == 0
        then some (id - nthreads / 2 + 1)
        else some id)
    else if id % 2 == 1
    then some (cpu_number / 2 + id - 1)
    else some id

-- The node of a core.
unfoldable pub current_numa_node : (core : ℕ) → ℕ
current_numa_node core =
    if ltb core 32 then 0 else if ltb core 64 then 1 else if ltb core 96 then 0 else 1

-- On two NUMA nodes with `use_nodes` 2, where the number of threads is a multiple of 4, two threads are pinned to different cpus.
pub pin_thread-distinct :
    (cpu_number nthreads i j : ℕ)
    → nthreads % 4 ≡ 0
    → i < nthreads
    → j < nthreads
    → i ≢ j
    → pin_thread 2 cpu_number i nthreads 2 ≢ pin_thread 2 cpu_number j nthreads 2
unfolding pin_thread
pin_thread-distinct cpu_number nthreads i j half lti ltj differ e = ground arith

-- On two NUMA nodes with `use_nodes` 2, where the number of threads is a multiple of 4, the first half of the threads gets even cpus and the others get odd ones, and every cpu is below the number of threads.
pub pin_thread-parity :
    (cpu_number nthreads i : ℕ)
    → nthreads % 4 ≡ 0
    → i < nthreads
    → (cpu : ℕ) × (pin_thread 2 cpu_number i nthreads 2 ≡ some cpu)
      × (cpu < nthreads)
      × (cpu % 2 ≡ (if ltb i (nthreads / 2) then 0 else 1))
unfolding pin_thread
pin_thread-parity cpu_number nthreads i half lti = elim (dec_lt i (nthreads / 2)) [
  | yes low ↦ (2 * i, ground arith, omega arith, ground arith)
  | no high ↦ elim (Bool-cases (i % 2 == 0)) [
    | inl even ↦ (i - nthreads / 2 + 1, ground arith, ground arith, ground arith)
    | inr odd ↦ (i, ground arith, lti, ground arith)
  ]
]

-- On two NUMA nodes with `use_nodes` 2, where the number of threads is at least 6 and leaves 2 modulo 4, threads 1 and nthreads / 2 + 1 are pinned to the same cpu.
pub pin_thread-collides :
    (cpu_number nthreads : ℕ)
    → nthreads % 4 ≡ 2
    → 6 ≤ nthreads
    → (pin_thread 2 cpu_number 1 nthreads 2 ≡ some 2)
      × (pin_thread 2 cpu_number (nthreads / 2 + 1) nthreads 2 ≡ some 2)
unfolding pin_thread
pin_thread-collides cpu_number nthreads rest big = (ground arith, ground arith)

-- With another `use_nodes`, on more than one NUMA node, where the number of cpus is a multiple of 4 and at least twice the number of threads, two threads are pinned to different cpus.
pub pin_thread-other_nodes :
    (numa_nodes cpu_number use_nodes nthreads i j : ℕ)
    → numa_nodes ≢ 1
    → use_nodes ≢ 2
    → cpu_number % 4 ≡ 0
    → 2 * nthreads ≤ cpu_number
    → i < nthreads
    → j < nthreads
    → i ≢ j
    → pin_thread numa_nodes cpu_number i nthreads use_nodes
      ≢ pin_thread numa_nodes cpu_number j nthreads use_nodes
unfolding pin_thread
pin_thread-other_nodes numa_nodes cpu_number use_nodes nthreads i j more other cpus fits lti ltj
      differ e =
    ground arith
