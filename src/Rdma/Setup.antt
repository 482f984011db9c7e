-- ===== src/Rdma/Setup.antt =====
-- How the RDMA code sets connections up: calls of the verbs and connection-manager library in a
-- row, each checked, with `return -errno` or `exit` at the first that fails. What the library
-- answers is an argument, which may depend on all that went before. The waits for an event
-- (`process_rdma_cm_event`) are among the calls. A failed call leaves any errno, 0 and the one before
-- included, as that function does where it meets another event than it expects.
pub mod Attempt
pub mod Client
pub mod Peers
pub mod Server
pub mod Ledger
pub mod Unnoticed
use dal.Prelude.{
  ℕ, zero, suc, Bool, true, false, List, [], ◌∷◌, ◌++◌, if◌then◌else◌, ℤ, pos, negsuc, neg, is_zero,
}

-- The calls that can fail, by the client (or peer) and the thread that they serve.
pub data Verb : Type 0 where
  create_sockaddr create_event_channel create_id resolve_addr addr_resolved ack : Verb
  resolve_route route_resolved alloc_pd create_comp_channel create_cq req_notify_cq : Verb
  create_qp alloc_data register_cas register_data register_unlock connect established : Verb
  read_metadata write_metadata bind listen connect_request client_id_set : Verb
  register_rlock register_shutdown accept disconnect destroy_qp destroy_comp_channel : Verb
  dealloc_pd destroy_id thread_create : Verb

pub record Call : Type 0 where
  pub verb : Verb
  pub client : ℕ
  pub thread : ℕ

pub data Reply : Type 0 where
  ok : Reply
  failed : (errno : ℕ) → Reply

-- An answer may depend on all calls made before.
abbrev pub Library : Type 0
Library = List Call → Call → Reply

-- The calls made so far, the oldest first, and the thread's errno.
pub record State : Type 0 where
  pub calls : List Call
  pub errno : ℕ

-- Where the control flow goes after a statement.
pub data Flow : Type 0 where
  go_on : Flow
  returns : ℤ → Flow
  exits : Flow

abbrev pub Code : Type 0
Code = State → Flow × State

-- Statement after statement.
abbrev pub resume : Flow × State → Code → Flow × State
resume (go_on, s) g = g s
resume (returns z, s) g = (returns z, s)
resume (exits, s) g = (exits, s)

infixr 20 ◌▸◌
abbrev pub ◌▸◌ : Code → Code → Code
(f ▸ g) s = resume (f s) g

abbrev pub skip : Code
skip s = (go_on, s)

-- for (int i = 0; i < n; i++)
unfoldable pub each : ℕ → (ℕ → Code) → Code
each zero f = skip
each (suc n) f = each n f ▸ f n

-- What is done where a call fails.
pub data OnFailure : Type 0 where
  return_errno return_einval exit_failure ignore : OnFailure

abbrev pub einval : ℕ
einval = 22

abbrev pub give_up : OnFailure → ℕ → Flow
give_up return_errno e = returns (neg (pos e))
give_up return_einval e = returns (neg (pos einval))
give_up exit_failure e = exits
give_up ignore e = go_on

abbrev pub made : Call → Reply → State → State
made c ok s = record { calls = s.calls ++ c ∷ []; errno = s.errno }
made c (failed e) s = record { calls = s.calls ++ c ∷ []; errno = e }

abbrev pub answered : OnFailure → Reply → Flow
answered h ok = go_on
answered h (failed e) = give_up h e

-- if (call) { ... }
unfoldable pub checked : Library → OnFailure → Call → Code
checked lib h c s = (answered h (lib s.calls c), made c (lib s.calls c) s)

-- A function: its end returns 0.
abbrev pub function : Code → Code
function f = f ▸ (λ s. (returns (pos 0), s))

-- if (f(...)) return -errno;
abbrev pub after_call : Flow × State → Flow × State
after_call (go_on, s) = (go_on, s)
after_call (returns z, s) = if is_zero z then (go_on, s) else (returns (neg (pos s.errno)), s)
after_call (exits, s) = (exits, s)

abbrev pub call_function : Code → Code
call_function f s = after_call (f s)
