-- ===== src/Bench.antt =====
-- The benchmark's own helpers, litl2/src/utils.c: where threads run, and how results add up.
pub mod Pin
pub mod Results
