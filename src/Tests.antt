-- ===== src/Tests.antt =====
-- The theorems at concrete inputs: schedules of threads, answers of the libraries, numbers.
pub mod Locks
pub mod Queues
pub mod Variants
pub mod Interposition
pub mod Remote
pub mod Connections
pub mod Service
pub mod Benchmark
