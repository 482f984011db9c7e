-- ===== src/Rdma.antt =====
-- The locks on disaggregated memory of litl2/src/rdma_client.c: lock words and data blocks lie on
-- a memory node, and the client threads reach them by one-sided RDMA operations.
pub mod Nic
pub mod Completion
pub mod Cm
pub mod Client
pub mod Invariant
pub mod Moves
pub mod Steps
pub mod Safety
pub mod Setup
pub mod Meta
pub mod Buffers
pub mod Alloc
