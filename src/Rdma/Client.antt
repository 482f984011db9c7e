-- ===== src/Rdma/Client.antt =====
-- One client thread of litl2/src/rdma_client.c between `rdma_request_lock_X` and
-- `rdma_release_lock_X`, an RDMA operation at a time (`perform_rdma_op`). An operation may fail
-- before or after the card carried it out; then the code exits, except where the completion has the
-- status IBV_WC_LOC_LEN_ERR, for which `perform_rdma_op` returns 0. Timing statistics are left out.
use dal.Prelude.{
  ℕ, zero, suc, ◌+◌, ◌*◌, ◌%◌, ◌^◌, ◌-◌, Bool, true, false, Option, none, some, ◌==◌, ltb,
  if◌then◌else◌, update,
}
use dal.Rdma.Nic.{Nic}

-- litl2/src/utils.h
abbrev pub max_array_size : ℕ
max_array_size = 512 * 1024

abbrev pub rlock_size : ℕ
rlock_size = 8

abbrev pub bo : ℕ
bo = 2 ^ 9

abbrev pub max_bo : ℕ
max_bo = 2 ^ 24 - 1

-- Where the memory node keeps locks and data, the bytes of data that a lock covers
-- (`disa_mutex->data_len`), and the client process that a thread belongs to.
pub record Layout : Type 0 where
  pub rlock_base : ℕ
  pub data_base : ℕ
  pub data_len : ℕ
  pub client_of : ℕ → ℕ

-- `locks[l].rlock_addr` and `locks[l].data_addr`, as microbench/main_disa.c sets them.
abbrev pub rlock_addr : Layout → ℕ → ℕ
rlock_addr y l = y.rlock_base + l * rlock_size

abbrev pub data_addr : Layout → ℕ → ℕ
data_addr y l = y.data_base + l * max_array_size

-- `curr_byte_offset >= 0`, where `int offset` was set to `l*array_sz`: the low 32 bits, signed.
unfoldable pub has_data : ℕ → Bool
has_data l = ltb (l * max_array_size % 2 ^ 32) (2 ^ 31)

pub data Variant : Type 0 where
  spinlock spinlock_bo lease1 : Variant

pub data Pc : Type 0 where
  idle : Pc
  casing : Variant → (l tries delay : ℕ) → Pc  -- the loop of `rdma_cas` or `rdma_bo_cas`
  pausing : (l tries delay left : ℕ) → Pc  -- the pause of `rdma_bo_cas`
  reading : (l tries : ℕ) → Pc  -- `rdma_read_data`
  inside : (l tries : ℕ) → Pc  -- `rdma_request_lock_X` returned its number of tries
  writing : (l : ℕ) → Pc  -- `rdma_write_data`
  releasing : (l : ℕ) → Pc  -- `rdma_release_rlock`
  exited : Option ℕ → Pc  -- after exit(EXIT_FAILURE) or a fault, perhaps with a lock taken

-- What the program and the network do next.
pub data Choice : Type 0 where
  request : Variant → (l : ℕ) → Choice
  work : (k : ℕ) → Choice  -- `l->int_data[k] += 1`, within the block of the lock
  release : Choice
  done : Choice  -- the operation succeeds
  lost : Choice  -- it fails and was not carried out
  cut_off : Choice  -- it was carried out, and its completion fails
  -- its completion has the status IBV_WC_LOC_LEN_ERR, which counts as success: nothing came into the
  -- thread's memory, and the memory node may have carried it out
  unseen : (carried : Bool) → Choice

pub record Mem (Remote : Type 0) : Type 0 where
  pub remote : Remote
  pub buffer : ℕ → ℕ → ℕ  -- `thread_int_data` of each thread
  pub cas_result : ℕ → ℕ  -- `*thread_cas_result` of each thread
  pub int_data : ℕ → ℕ → Option ℕ  -- `disa_mutex->int_data` by client and lock: whose buffer
  pub made : ℕ → ℕ → ℕ  -- for the statements only: the increments made under lock and index

-- if (delay < MAX_BO) delay *= 2;
unfoldable pub longer : ℕ → ℕ
longer delay = if ltb delay max_bo then delay * 2 % 2 ^ 32 else delay

-- after a failed compare-and-swap
abbrev pub retry : Variant → (l tries delay : ℕ) → Pc
retry spinlock l tries delay = casing spinlock l tries delay
retry lease1 l tries delay = casing lease1 l tries delay
retry spinlock_bo l tries delay = pausing l tries delay delay

-- if (*thread_cas_result), after the operation
abbrev pub judged : Variant → (l tries delay result : ℕ) → Pc
judged v l tries delay result = if result == 0 then reading l tries else retry v l tries delay

-- `set2 f i k v` is `f[i][k] = v`.
abbrev pub set2 {ℓ} : {A : Type ℓ} → (ℕ → ℕ → A) → ℕ → ℕ → A → ℕ → ℕ → A
set2 f i k v = update f i (update (f i) k v)

module _ (nic : Nic) (y : Layout) where
  open nic use {Remote, word, int_at, compare_swap, write_word, write_block}

  -- RDMA compare-and-swap of 0 by 1 on the lock.
  abbrev pub swapped : Mem Remote → ℕ → Remote
  swapped m l = compare_swap (rlock_addr y l) 0 1 m.remote

  -- `*thread_cas_result` is the word before.
  unfoldable pub rdma_cas :
      ℕ → Choice → Mem Remote → Variant → (l tries delay : ℕ) → Mem Remote × Pc
  rdma_cas i lost m v l tries delay = (m, exited none)
  rdma_cas i cut_off m v l tries delay = (
    record m {
      remote = swapped m l;
      cas_result = update m.cas_result i (word m.remote (rlock_addr y l));
    },
    exited (if word m.remote (rlock_addr y l) == 0 then some l else none),
  )
  rdma_cas i (unseen carried) m v l tries delay = (
    record m { remote = if carried then swapped m l else m.remote },
    judged v l (tries + 1) delay (m.cas_result i),
  )
  rdma_cas i _ m v l tries delay = (
    record m {
      remote = swapped m l;
      cas_result = update m.cas_result i (word m.remote (rlock_addr y l));
    },
    judged v l (tries + 1) delay (word m.remote (rlock_addr y l)),
  )

  -- RDMA read of the block into the buffer of the thread, which the lock then points to.
  unfoldable pub fetched : ℕ → Mem Remote → ℕ → ℕ → ℕ
  fetched i m l k =
      if ltb (4 * k) y.data_len then int_at m.remote (data_addr y l + 4 * k) else m.buffer i k

  unfoldable pub read_block : ℕ → Choice → Mem Remote → (l tries : ℕ) → Mem Remote × Pc
  unfolding fetched
  read_block i lost m l tries = (m, exited (some l))
  read_block i cut_off m l tries =
      (record m { buffer = update m.buffer i (fetched i m l) }, exited (some l))
  read_block i (unseen carried) m l tries =
      (record m { int_data = set2 m.int_data (y.client_of i) l (some i) }, inside l tries)
  read_block i _ m l tries = (
    record m {
      buffer = update m.buffer i (fetched i m l);
      int_data = set2 m.int_data (y.client_of i) l (some i);
    },
    inside l tries,
  )

  unfoldable pub rdma_read_data : ℕ → Choice → Mem Remote → (l tries : ℕ) → Mem Remote × Pc
  unfolding read_block
  rdma_read_data i c m l tries =
      if has_data l then read_block i c m l tries else (m, inside l tries)

  -- The critical section: an increment of the integer that the lock points to.
  unfoldable pub bumped : ℕ → Mem Remote → (l k : ℕ) → Mem Remote
  bumped p m l k = record m {
    buffer = set2 m.buffer p k ((m.buffer p k + 1) % 2 ^ 32);
    made = set2 m.made l k (m.made l k + 1);
  }

  unfoldable pub increment : Option ℕ → Mem Remote → (l k tries : ℕ) → Mem Remote × Pc
  unfolding bumped
  increment none m l k tries = (m, exited (some l))
  increment (some p) m l k tries = (bumped p m l k, inside l tries)

  -- RDMA write of the block from the buffer that the lock points to.
  unfoldable pub written : ℕ → Mem Remote → ℕ → Mem Remote
  written p m l = record m { remote = write_block (data_addr y l) y.data_len (m.buffer p) m.remote }

  unfoldable pub write_from : Option ℕ → Choice → Mem Remote → (l : ℕ) → Mem Remote × Pc
  unfolding written
  write_from none c m l = (m, exited (some l))
  write_from (some p) lost m l = (m, exited (some l))
  write_from (some p) cut_off m l = (written p m l, exited (some l))
  write_from (some p) (unseen carried) m l = (if carried then written p m l else m, releasing l)
  write_from (some p) _ m l = (written p m l, releasing l)

  unfoldable pub rdma_write_data : ℕ → Choice → Mem Remote → (l : ℕ) → Mem Remote × Pc
  unfolding write_from
  rdma_write_data i c m l =
      if has_data l then write_from (m.int_data (y.client_of i) l) c m l else (m, releasing l)

  -- RDMA write of 0 (`*unlock_val`) to the lock.
  abbrev pub cleared : Mem Remote → ℕ → Mem Remote
  cleared m l = record m { remote = write_word (rlock_addr y l) 0 m.remote }

  unfoldable pub rdma_release_rlock : Choice → Mem Remote → (l : ℕ) → Mem Remote × Pc
  rdma_release_rlock lost m l = (m, exited (some l))
  rdma_release_rlock cut_off m l = (cleared m l, exited none)
  rdma_release_rlock (unseen carried) m l = (if carried then cleared m l else m, idle)
  rdma_release_rlock _ m l = (cleared m l, idle)

  unfoldable pub step : ℕ → Choice → Mem Remote → Pc → Mem Remote × Pc
  unfolding rdma_cas rdma_read_data increment rdma_write_data rdma_release_rlock
  step i (request v l) m idle = (m, casing v l 0 bo)
  step i _ m idle = (m, idle)
  step i c m (casing v l tries delay) = rdma_cas i c m v l tries delay
  step i _ m (pausing l tries delay zero) = (m, casing spinlock_bo l tries (longer delay))
  step i _ m (pausing l tries delay (suc left)) = (m, pausing l tries delay left)
  step i c m (reading l tries) = rdma_read_data i c m l tries
  step i (work k) m (inside l tries) =
      if ltb (4 * k) y.data_len
      then increment (m.int_data (y.client_of i) l) m l k tries
      else (m, inside l tries)
  step i release m (inside l tries) = (m, writing l)
  step i _ m (inside l tries) = (m, inside l tries)
  step i c m (writing l) = rdma_write_data i c m l
  step i c m (releasing l) = rdma_release_rlock c m l
  step i _ m (exited h) = (m, exited h)

-- No completion of the schedule has the status that counts as success by mistake.
abbrev pub is_seen : Choice → Bool
is_seen (unseen carried) = false
is_seen _ = true
