-- ===== src/Lock.antt =====
-- What the lock algorithms of litl2/src (spinlock.c, ttas.c, backoff.c, ticket.c, ...) have in
-- common: an interface that each implements, and in the children the code that each wraps around
-- its own acquire and release (`X_mutex_lock`, `X_mutex_trylock`, `X_mutex_unlock`,
-- `X_cond_timedwait`).
pub mod Raw
pub mod Progress
pub mod Wrapper
pub mod Invariant
pub mod Safety
pub mod Word
pub mod Spinlock
pub mod Ticket
pub mod Ttas
pub mod Backoff
pub mod Mcs
pub mod Clh
pub mod Partitioned
pub mod Clhepfl
pub mod Spinlockepfl
pub mod Cohort
pub mod Cbomcs
pub mod Ctkttkt
pub mod Ticketepfl
pub mod Mcsepfl
pub mod Ttasepfl
pub mod Alockepfl
pub mod Variants
pub mod Alone
pub mod Instances
