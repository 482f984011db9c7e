-- ===== src/Interpose.antt =====
-- litl2/src/interpose.c: the library's entry points in place of the pthread functions. A thread
-- draws its number when it starts, and each call finds the lock of its pthread mutex in a hash
-- table, or creates it. Locks (`lock_transparent_mutex_t`) are numbered as they are created.
pub mod Table
pub mod Ledger
pub mod Moves
pub mod Entries
pub mod Steps
pub mod Sharing
pub mod Leak
pub mod Safety
pub mod Program
use dal.Prelude.{
  ℕ, suc, ◌+◌, ◌%◌, ◌^◌, Bool, true, false, Option, none, some, update, leb, if◌then◌else◌,
}
use dal.Interpose.Table.{Clht}

-- litl2/src/utils.h
abbrev pub max_threads : ℕ
max_threads = 128

pub record Process (S : Type 0) : Type 0 where
  pub table : S  -- pthread_to_lock
  pub made : ℕ  -- how many locks were created
  pub freed : ℕ → Bool  -- which of them `free` was called on
  pub destroyed : ℕ → Bool  -- and `lock_mutex_destroy`, on their inner lock
  pub last_thread_id : ℕ
  pub exited : Bool  -- by `exit(-1)`

-- A call of a function of pthread_mutex_lock's kind (trylock, unlock, and the waits alike), of
-- `pthread_mutex_init` or of `pthread_mutex_destroy`, on the mutex at an address.
pub data Choice : Type 0 where
  call_use call_init call_destroy : (mutex : ℕ) → Choice
  proceed : Choice

-- Why a lock is created: to use it at once, or by an init, which ignores it.
pub data Purpose : Type 0 where
  to_use to_init : Purpose

-- `id` is `cur_thread_id`.
pub data Pc : Type 0 where
  starting : Pc  -- `lp_start_routine`, or `interpose_init` for the main thread
  running : (id : ℕ) → Pc
  -- in the call on lock `k`, with its context `lock_node[id]`
  using : (id mutex k : ℕ) → Pc
  getting : (id mutex : ℕ) → Pc  -- `ht_lock_get`
  creating : (id mutex : ℕ) → Purpose → Pc  -- `ht_lock_create`
  putting : (id mutex k : ℕ) → Purpose → Pc
  losing : (id mutex k : ℕ) → Purpose → Pc  -- before its `free`
  regetting : (id mutex : ℕ) → Purpose → Pc  -- before its `clht_get`
  removing : (id mutex : ℕ) → Pc  -- `pthread_mutex_destroy`
  destroying : (id k : ℕ) → Pc
  freeing : (id k : ℕ) → Pc
  crashed : Pc  -- `impl->lock_lock` through NULL

abbrev pub created : ℕ → ℕ → ℕ → Purpose → Pc
created id x k to_use = using id x k
created id x k to_init = running id

abbrev pub after_get : ℕ → ℕ → Option ℕ → Pc
after_get id x none = creating id x to_use
after_get id x (some k) = using id x k

abbrev pub after_reget : ℕ → ℕ → Option ℕ → Purpose → Pc
after_reget id x none to_use = crashed
after_reget id x none to_init = running id
after_reget id x (some k) u = created id x k u

abbrev pub after_remove : ℕ → Option ℕ → Pc
after_remove id none = running id
after_remove id (some k) = destroying id k

-- The calls that the program makes.
abbrev pub enter : ℕ → Choice → Pc
enter id (call_use x) = getting id x
enter id (call_init x) = creating id x to_init
enter id (call_destroy x) = removing id x
enter id proceed = running id

module _ (clht : Clht) where
  open clht use {State, get, put, remove}

  -- cur_thread_id = __sync_fetch_and_add(&last_thread_id, 1), and the test that follows
  unfoldable pub draw_id : Process State → Process State × Pc
  draw_id m =
      if leb max_threads m.last_thread_id
      then (record m { last_thread_id = (m.last_thread_id + 1) % 2 ^ 32; exited = true }, starting)
      else (record m { last_thread_id = (m.last_thread_id + 1) % 2 ^ 32 }, running m.last_thread_id)

  abbrev pub ht_lock_get : Process State → ℕ → ℕ → Process State × Pc
  ht_lock_get m id x = (m, after_get id x (get m.table x))

  abbrev pub ht_lock_create : Process State → Pc → Process State × Pc
  ht_lock_create m (creating id x u) = (record m { made = suc m.made }, putting id x m.made u)
  ht_lock_create m (putting id x k u) = (
    record m { table = (put m.table x k).0 },
    if (put m.table x k).1 then created id x k u else losing id x k u,
  )
  ht_lock_create m (losing id x k u) =
      (record m { freed = update m.freed k true }, regetting id x u)
  ht_lock_create m (regetting id x u) = (m, after_reget id x (get m.table x) u)
  ht_lock_create m p = (m, p)

  -- up to the call of the C library's own `pthread_mutex_destroy`, which the table does not see
  abbrev pub pthread_mutex_destroy : Process State → Pc → Process State × Pc
  pthread_mutex_destroy m (removing id x) =
      (record m { table = (remove m.table x).0 }, after_remove id (remove m.table x).1)
  pthread_mutex_destroy m (destroying id k) =
      (record m { destroyed = update m.destroyed k true }, freeing id k)
  pthread_mutex_destroy m (freeing id k) = (record m { freed = update m.freed k true }, running id)
  pthread_mutex_destroy m p = (m, p)

  unfoldable pub advance : Choice → Process State → Pc → Process State × Pc
  advance _ m starting = draw_id m
  advance c m (running id) = (m, enter id c)
  advance _ m (using id x k) = (m, running id)
  advance _ m (getting id x) = ht_lock_get m id x
  advance _ m (creating id x u) = ht_lock_create m (creating id x u)
  advance _ m (putting id x k u) = ht_lock_create m (putting id x k u)
  advance _ m (losing id x k u) = ht_lock_create m (losing id x k u)
  advance _ m (regetting id x u) = ht_lock_create m (regetting id x u)
  advance _ m (removing id x) = pthread_mutex_destroy m (removing id x)
  advance _ m (destroying id k) = pthread_mutex_destroy m (destroying id k)
  advance _ m (freeing id k) = pthread_mutex_destroy m (freeing id k)
  advance _ m crashed = (m, crashed)

  -- After `exit` no thread moves.
  unfoldable pub step : ℕ → Choice → Process State → Pc → Process State × Pc
  step i c m p = if m.exited then (m, p) else advance c m p

  -- as the constructor leaves the table, before any thread has its number
  abbrev pub loaded : Process State
  loaded = record {
    table = clht.empty;
    made = 0;
    freed = λ k. false;
    destroyed = λ k. false;
    last_thread_id = 0;
    exited = false;
  }
