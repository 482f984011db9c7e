-- ===== src/Lock/Progress.antt =====
-- Progress of a lock algorithm: a thread that is not stuck where it stands.
use dal.Prelude.{ℕ, ◌≡◌, ◌≢◌, true, false, some}
use dal.Lock.Raw.{RawLock, Raw, idle, polling, held, leaving, pending}

-- The next step of thread `i` takes it elsewhere; a holder leaves when the program says so.
abbrev pub Moves : (lock : RawLock) → ℕ → lock.Mem → Raw lock.Poll lock.Leave → Type 0
Moves lock i m idle = true ≡ false
Moves lock i m (polling q) = (lock.poll i m q).1 ≢ pending q
Moves lock i m held = Unit
Moves lock i m (leaving r) = (lock.leave i m r).1 ≢ some r
