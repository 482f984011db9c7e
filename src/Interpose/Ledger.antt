-- ===== src/Interpose/Ledger.antt =====
-- Who has which lock in hand, and what the table and the threads know of it.
use dal.Prelude.{ℕ, ◌≤◌, ◌<◌, ◌≡◌, ◌≢◌, false, Option, none, some}
use dal.Interpose.Table.{Clht}
use dal.Interpose.{
  max_threads, Process, Pc, starting, running, using, getting, creating, putting, losing, regetting,
  removing, destroying, freeing, crashed,
}

abbrev pub id_of : Pc → Option ℕ
id_of starting = none
id_of (running id) = some id
id_of (using id x k) = some id
id_of (getting id x) = some id
id_of (creating id x u) = some id
id_of (putting id x k u) = some id
id_of (losing id x k u) = some id
id_of (regetting id x u) = some id
id_of (removing id x) = some id
id_of (destroying id k) = some id
id_of (freeing id k) = some id
id_of crashed = none

-- The lock that a thread alone has in hand, to put it into the table or to take it down.
abbrev pub owns : Pc → Option ℕ
owns (putting id x k u) = some k
owns (losing id x k u) = some k
owns (destroying id k) = some k
owns (freeing id k) = some k
owns _ = none

abbrev pub owns_whole : Pc → Option ℕ
owns_whole (putting id x k u) = some k
owns_whole (losing id x k u) = some k
owns_whole (destroying id k) = some k
owns_whole _ = none

pub record Inv (clht : Clht) (m : Process clht.State) (pc : ℕ → Pc) : Type 0 where
  pub ids : (i d : ℕ) → id_of (pc i) ≡ some d → (d < m.last_thread_id) × (d < max_threads)
  pub ids_differ : (i j d e : ℕ) → i ≢ j → id_of (pc i) ≡ some d → id_of (pc j) ≡ some e → d ≢ e
  pub few : m.exited ≡ false → m.last_thread_id ≤ max_threads
  pub owned : (i k : ℕ) → owns (pc i) ≡ some k → (k < m.made) × (m.freed k ≡ false)
  pub apart : (i k x : ℕ) → owns (pc i) ≡ some k → clht.get m.table x ≢ some k
  pub whole : (i k : ℕ) → owns_whole (pc i) ≡ some k → m.destroyed k ≡ false
  pub sole : (i j k : ℕ) → owns (pc i) ≡ some k → owns (pc j) ≡ some k → i ≡ j
  pub stored :
      (x k : ℕ)
      → clht.get m.table x ≡ some k
      → (k < m.made) × (m.freed k ≡ false) × (m.destroyed k ≡ false)
  pub once : (x y k : ℕ) → clht.get m.table x ≡ some k → clht.get m.table y ≡ some k → x ≡ y
  pub unmade : (k : ℕ) → m.made ≤ k → (m.freed k ≡ false) × (m.destroyed k ≡ false)
