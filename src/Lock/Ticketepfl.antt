-- ===== src/Lock/Ticketepfl.antt =====
-- litl2/src/ticketepfl.c: the ticket lock with `grant` one ahead of the tickets given out, and a
-- pause between two tests that grows with the distance of the ticket (`nop_rep`, counted down).
pub mod Steps
use dal.Prelude.{ℕ, zero, suc, ◌+◌, ◌-◌, ◌*◌, ◌^◌, Option, none, some, ltb, ◌==◌, if◌then◌else◌}
use dal.Lock.Raw.{Outcome, pending, acquired, busy}
use dal.Lock.Ticket.{Counters, u32, word_of, of_word}

-- litl2/include/ticketepfl.h
abbrev pub ticket_base_wait : ℕ
ticket_base_wait = 512

abbrev pub ticket_wait_next : ℕ
ticket_wait_next = 128

-- `ticketepfl_mutex_create`
abbrev pub created : Counters
created = record { request = 0; grant = 1 }

abbrev pub sub_abs : ℕ → ℕ → ℕ
sub_abs a b = if ltb b a then a - b else b - a

pub data Poll : Type 0 where
  draw : Poll
  -- the test of the loop; `wait` and `distance_prev` are its locals
  watch : (my_ticket wait distance_prev : ℕ) → Poll
  pause : (my_ticket wait distance_prev left : ℕ) → Poll
  read_request : Poll  -- `ticketepfl_mutex_trylock`
  try_cas : (me : ℕ) → Poll

pub data Leave : Type 0 where
  read_grant : Leave
  write_grant : (g : ℕ) → Leave

-- The length of the pause, from the distance.
abbrev pub delayed : ℕ → ℕ → ℕ → ℕ → Poll
delayed my_ticket wait distance_prev distance =
    if ltb 1 distance
    then (if distance == distance_prev
        then pause my_ticket wait distance_prev (u32 (distance * wait))
        else pause my_ticket ticket_base_wait distance (u32 (distance * ticket_base_wait)))
    else pause my_ticket wait distance_prev ticket_wait_next

unfoldable pub poll : ℕ → Counters → Poll → Counters × Outcome Poll
unfolding word_of of_word
poll i m draw = (
  record m { request = u32 (m.request + 1) },
  pending (watch (u32 (m.request + 1)) ticket_base_wait 1),
)
poll i m (watch my_ticket wait distance_prev) = (
  m,
  if m.grant == my_ticket
      then acquired
      else pending (delayed my_ticket wait distance_prev (sub_abs m.grant my_ticket)),
)
poll i m (pause my_ticket wait distance_prev zero) =
    (m, pending (watch my_ticket wait distance_prev))
poll i m (pause my_ticket wait distance_prev (suc left)) =
    (m, pending (pause my_ticket wait distance_prev left))
poll i m read_request = (m, pending (try_cas m.request))
poll i m (try_cas me) =
    if word_of m == me * 2 ^ 32 + u32 (me + 1)
    then (of_word (u32 (me + 1) * 2 ^ 32 + u32 (me + 1)), acquired)
    else (m, busy)

unfoldable pub leave : ℕ → Counters → Leave → Counters × Option Leave
leave i m read_grant = (m, some (write_grant m.grant))
leave i m (write_grant g) = (record m { grant = u32 (g + 1) }, none)
