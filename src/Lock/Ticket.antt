-- ===== src/Lock/Ticket.antt =====
-- litl2/src/ticket.c: two 32-bit counters, `request` and `grant`, in one 64-bit word.
pub mod Tickets
use dal.Prelude.{ℕ, ◌+◌, ◌*◌, ◌/◌, ◌%◌, ◌^◌, Option, none, some, ◌==◌, if◌then◌else◌}
use dal.Lock.Raw.{Outcome, pending, acquired, busy}

pub record Counters : Type 0 where
  pub request : ℕ  -- uint32_t
  pub grant : ℕ  -- uint32_t

pub data Poll : Type 0 where
  draw : Poll  -- the fetch-and-add of `ticket_mutex_lock`
  spin : (t : ℕ) → Poll  -- its `while`
  read_request : Poll  -- the first read of `ticket_mutex_trylock`
  try_cas : (me : ℕ) → Poll  -- its compare-and-swap

-- `grant++` reads, then writes
pub data Leave : Type 0 where
  read_grant : Leave
  write_grant : (g : ℕ) → Leave

abbrev pub u32 : ℕ → ℕ
u32 n = n % 2 ^ 32

-- The union `u.u`: `grant` is the low half.
unfoldable pub word_of : Counters → ℕ
word_of m = m.request * 2 ^ 32 + m.grant

unfoldable pub of_word : ℕ → Counters
of_word w = record { request = w / 2 ^ 32; grant = w % 2 ^ 32 }

unfoldable pub poll : ℕ → Counters → Poll → Counters × Outcome Poll
unfolding word_of of_word
poll i m draw = (record m { request = u32 (m.request + 1) }, pending (spin m.request))
poll i m (spin t) = (m, if m.grant == t then acquired else pending (spin t))
poll i m read_request = (m, pending (try_cas m.request))
poll i m (try_cas me) =
    if word_of m == me * 2 ^ 32 + me
    then (of_word (u32 (me + 1) * 2 ^ 32 + me), acquired)
    else (m, busy)

unfoldable pub leave : ℕ → Counters → Leave → Counters × Option Leave
leave i m read_grant = (m, some (write_grant m.grant))
leave i m (write_grant g) = (record m { grant = u32 (g + 1) }, none)
