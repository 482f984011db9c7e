-- ===== src/Rdma/Buffers.antt =====
-- `populate_mn_client_meta` of litl2/src/rdma_client.c: the scatter entries and work requests of
-- each thread. `i*RLOCK_SIZE` is an `int`, which wraps around; `i*MAX_ARRAY_SIZE` is a long, as `KB(x)`
-- is `(x)*1024L`, and the sums are 64 bits wide.
use dal.Prelude.{ℕ, ◌+◌, ◌*◌, ◌-◌, ◌%◌, ◌^◌, ◌≤◌, ◌<◌, ◌≢◌, ◌⊎◌, ltb, if◌then◌else◌, arith}
use dal.Rdma.Client.{max_array_size, rlock_size}
use dal.Rdma.Meta.{Region, Node}

-- ibv_sge, and what the code sets of ibv_send_wr
pub record Sge : Type 0 where
  pub addr : ℕ
  pub length : ℕ
  pub lkey : ℕ

pub data Opcode : Type 0 where
  atomic_cmp_and_swp atomic_fetch_and_add rdma_read : Opcode

pub record WorkRequest : Type 0 where
  pub wr_id : ℕ
  pub sge : Sge
  pub opcode : Opcode
  pub remote_addr : ℕ
  pub rkey : ℕ
  pub compare_add : ℕ
  pub swap : ℕ

pub record ThreadMeta : Type 0 where
  pub cas_wr : WorkRequest
  pub w_wr : WorkRequest
  pub data_wr : WorkRequest

-- The local regions: their addresses, with the local keys.
pub record Local : Type 0 where
  pub cas : Region
  pub block : Region
  pub unlock : Region

-- An `int` added to a 64-bit address: the low 32 bits, signed.
abbrev pub int_offset : ℕ → ℕ
int_offset x = if ltb (x % 2 ^ 32) (2 ^ 31) then x % 2 ^ 32 else x % 2 ^ 32 + 2 ^ 64 - 2 ^ 32

unfoldable pub cas_sge : Local → ℕ → Sge
cas_sge m i = record {
  addr = (m.cas.addr + int_offset (i * rlock_size)) % 2 ^ 64;
  length = 8;
  lkey = m.cas.rkey;
}

unfoldable pub data_sge : Local → ℕ → Sge
data_sge m i = record {
  addr = (m.block.addr + i * max_array_size) % 2 ^ 64;
  length = max_array_size;
  lkey = m.block.rkey;
}

-- The parts of a request that stay 0 were never set.
unfoldable pub populate_mn_client_meta : Local → Node → (i : ℕ) → ThreadMeta
unfolding cas_sge data_sge
populate_mn_client_meta m n i = record {
  cas_wr = record {
    wr_id = i;
    sge = cas_sge m i;
    opcode = atomic_cmp_and_swp;
    remote_addr = n.rlock.addr;
    rkey = n.rlock.rkey;
    compare_add = 0;
    swap = 1;
  };
  w_wr = record {
    wr_id = i;
    sge = record { addr = m.unlock.addr; length = 8; lkey = m.unlock.rkey };
    opcode = atomic_fetch_and_add;
    remote_addr = n.rlock.addr;
    rkey = n.rlock.rkey;
    compare_add = 0;
    swap = 0;
  };
  data_wr = record {
    wr_id = i;
    sge = data_sge m i;
    opcode = rdma_read;
    remote_addr = n.block.addr;
    rkey = n.block.rkey;
    compare_add = 0;
    swap = 0;
  };
}

abbrev pub Apart : Sge → Sge → Type 0
Apart a b = (a.addr + a.length ≤ b.addr) ⊎ (b.addr + b.length ≤ a.addr)

abbrev pub Within : Sge → (base size : ℕ) → Type 0
Within a base size = (base ≤ a.addr) × (a.addr + a.length ≤ base + size)

-- Where the registered region of `nthreads` blocks does not pass the end of the address space, the data buffers of two threads do not overlap, and each lies in that region.
pub data_buffers-Apart :
    (m : Local) (n : Node) (nthreads i j : ℕ)
    → m.block.addr + nthreads * max_array_size < 2 ^ 64
    → i < nthreads
    → j < nthreads
    → i ≢ j
    → Apart (populate_mn_client_meta m n i).data_wr.sge (populate_mn_client_meta m n j).data_wr.sge
      × Within (populate_mn_client_meta m n i).data_wr.sge m.block.addr (nthreads * max_array_size)
unfolding populate_mn_client_meta data_sge
data_buffers-Apart m n nthreads i j fits lti ltj differ = ground arith

-- For up to 4096 threads, where the registered region of `nthreads` words does not pass the end of the address space, the words that receive the results of compare-and-swap do not overlap for two threads, and each lies in that region.
pub cas_results-Apart :
    (m : Local) (n : Node) (nthreads i j : ℕ)
    → nthreads ≤ 4096
    → m.cas.addr + nthreads * 8 < 2 ^ 64
    → i < nthreads
    → j < nthreads
    → i ≢ j
    → Apart (populate_mn_client_meta m n i).cas_wr.sge (populate_mn_client_meta m n j).cas_wr.sge
      × Within (populate_mn_client_meta m n i).cas_wr.sge m.cas.addr (nthreads * 8)
unfolding populate_mn_client_meta cas_sge
cas_results-Apart m n nthreads i j few fits lti ltj differ = ground arith
