-- ===== src/Tcp/Safety.antt =====
-- The lock service in every state that clients and server threads reach.
use dal.Prelude.{
  ℕ, ◌≡◌, ◌≢◌, refl, ap, Bool, true, false, if◌then◌else◌, Option, none, some, List, [], ◌∷◌,
  update, arith, Bool-cases, inl, inr, ◌==◌, ==_refl, subst,
}
use dal.Interleave.{System, run, run_keeps, turn}
use dal.Posix.{PosixMutex}
use dal.Tcp.Service.{
  Message, Client, outside, requested, releasing, received, inside, closed, Server, looping,
  awaiting, Connection, Choice, client_acts, server_acts, hang_up, server_exits, Memory,
  client_step, server_step, step,
}
use dal.Tcp.Exclusion.{Linked, IsLinked, has_mutex, client_step-IsLinked, server_step-IsLinked}
use dal.Tcp.Ownership.{Owns, keep, server_step-Owns}

received_server :
    (q : List Message) (c : Connection) (next : Client)
    → (received false q c next).server ≡ c.server
received_server [] c next = refl
received_server (x ∷ q) c next = refl

client_step-server : (c : Connection) (k : Client) → (client_step false c k).server ≡ c.server
unfolding client_step
client_step-server c outside = refl
client_step-server c requested = received_server c.down c inside
client_step-server c inside = refl
client_step-server c releasing = received_server c.down c outside
client_step-server c closed = refl

one_owner : (o : Option ℕ) (i j : ℕ) → o ≡ some i → o ≡ some j → i ≡ j
one_owner none i j hi hj = absurd (ground arith)
one_owner (some k) i j hi hj = ground arith

inside-awaiting : (s : Server) (up down : List Message) → Linked inside s up down → s ≡ awaiting
inside-awaiting awaiting up down h = refl
inside-awaiting _ up down h = absurd (ground arith)

inside-has_mutex :
    (s : Server) (up down : List Message) → Linked inside s up down → has_mutex s ≡ true
inside-has_mutex awaiting up down h = refl
inside-has_mutex _ up down h = absurd (ground arith)

module _ (posix : PosixMutex) where
  open posix use {State, fresh, owner, owner-fresh, owner-freed}

  pub record Inv (m : Memory State) (pc : ℕ → Connection) : Type 0 where
    pub owns : Owns posix m pc
    pub linked : (j : ℕ) → IsLinked (pc j)

  IsLinked-update :
      (pc : ℕ → Connection) (i : ℕ) (c : Connection)
      → ((j : ℕ) → IsLinked (pc j))
      → IsLinked c
      → (j : ℕ) → IsLinked (update pc i c j)
  IsLinked-update pc i c all h j = elim (Bool-cases (i == j)) [
    | inl e ↦ rw e h
    | inr e ↦ rw e (all j)
  ]

  -- The server process has not exited, or nothing is claimed.
  unfoldable pub UntilGone : Memory State → (ℕ → Connection) → Type 0
  UntilGone m pc = m.gone ≡ false → Inv m pc

  Inv-client :
      (i : ℕ) (m : Memory State) (pc : ℕ → Connection) (gone : Bool)
      → gone ≡ false
      → Inv m pc
      → Inv m (update pc i (client_step gone (pc i) (pc i).client))
  Inv-client i m pc true here v = absurd (ground arith)
  Inv-client i m pc false here v = record {
    owns = keep posix v.owns i m _ refl (ap has_mutex (client_step-server (pc i) (pc i).client));
    linked =
        IsLinked-update pc i _ v.linked
          (client_step-IsLinked (pc i).client (pc i).server (pc i).up (pc i).down (v.linked i));
  }

  abbrev served_unless : Bool → ℕ → Memory State → Connection → Memory State × Connection
  served_unless gone i m c = if gone then (m, c) else server_step posix i m c c.server

  Inv-server :
      (i : ℕ) (m : Memory State) (pc : ℕ → Connection) (gone : Bool)
      → m.gone ≡ gone
      → UntilGone m pc
      → UntilGone (served_unless gone i m (pc i)).0 (update pc i (served_unless gone i m (pc i)).1)
  unfolding UntilGone
  Inv-server i m pc true out until = λ here. absurd (ground arith)
  Inv-server i m pc false up until = λ here. record {
    owns = server_step-Owns posix (until up).owns i (pc i).server refl;
    linked = IsLinked-update pc i _ (until up).linked (
        server_step-IsLinked posix i m (pc i).client (pc i).server (pc i).up (pc i).down
          ((until up).linked i));
  }

  Inv-step :
      (i : ℕ) (c : Choice) (m : Memory State) (pc : ℕ → Connection)
      → UntilGone m pc
      → UntilGone (step posix i c m (pc i)).0 (update pc i (step posix i c m (pc i)).1)
  unfolding step UntilGone
  Inv-step i client_acts m pc until = λ here. Inv-client i m pc m.gone here (until here)
  Inv-step i server_acts m pc until = Inv-server i m pc m.gone refl until
  Inv-step i hang_up m pc until = λ here.
      let v = until here in
      record {
        owns = keep posix v.owns i m _ refl refl;
        linked = IsLinked-update pc i _ v.linked tt;
      }
  Inv-step i server_exits m pc until = λ here. absurd (ground arith)

  -- No client has sent anything.
  abbrev pub start : System (Memory State) Connection
  start = record {
    mem = record { mutex = fresh; bench_running = true; gone = false };
    pc = λ i. record { client = outside; server = looping; up = []; down = [] };
  }

  abbrev pub reached : List (ℕ × Choice) → System (Memory State) Connection
  reached l = run (step posix) l start

  pub reached-Inv :
      (l : List (ℕ × Choice)) → (reached l).mem.gone ≡ false → Inv (reached l).mem (reached l).pc
  unfolding UntilGone
  reached-Inv l = run_keeps (step posix) UntilGone Inv-step l start (λ here. record {
    owns = record { mine = λ j h. cc; theirs = λ j h. ground (arith, owner-fresh) };
    linked = λ j. (refl, refl);
  })

abbrev served :
    (posix : PosixMutex) → ℕ → Memory posix.State × Connection → Memory posix.State × Connection
served posix i r = step posix i server_acts r.0 r.1

-- Three steps of the server thread of a client that is gone.
gone-frees :
    (posix : PosixMutex) (i : ℕ) (m : Memory posix.State) (s : Server) (up down : List Message)
    → s ≡ awaiting
    → m.gone ≡ false
    → posix.owner m.mutex ≡ some i
    → posix.owner
        (served posix i (
          served posix i (
            served posix i
              (m, record { client = closed; server = s; up = up; down = down })))).0.mutex
      ≡ none
unfolding step server_step
gone-frees posix i m awaiting [] down e here h = rw here (posix.owner-freed i m.mutex h)
gone-frees posix i m awaiting (x ∷ up) down e here h = rw here (posix.owner-freed i m.mutex h)
gone-frees posix i m _ up down e here h = absurd (ground arith)

module _ (posix : PosixMutex) (l : List (ℕ × Choice))
    (here : (reached posix l).mem.gone ≡ false) where
  abbrev state : System (Memory posix.State) Connection
  state = reached posix l

  awaits :
      (k : ℕ)
      → (state.pc k).client ≡ inside
      → Linked inside (state.pc k).server (state.pc k).up (state.pc k).down
  awaits k h =
      subst (λ x. Linked x (state.pc k).server (state.pc k).up (state.pc k).down) h
        ((reached-Inv posix l here).linked k)

  owned : (k : ℕ) → (state.pc k).client ≡ inside → posix.owner state.mem.mutex ≡ some k
  owned k h =
      (reached-Inv posix l here).owns.mine k
        (inside-has_mutex (state.pc k).server (state.pc k).up (state.pc k).down (awaits k h))

  -- As long as the server process has not exited: while a client is inside, its server thread has the mutex and no other client is inside.
  pub clients_exclusive :
      (i j : ℕ)
      → i ≢ j
      → (state.pc i).client ≡ inside
      → (posix.owner state.mem.mutex ≡ some i) × ((state.pc j).client ≢ inside)
  clients_exclusive i j differ hi = (
    owned i hi,
    λ hj. differ (one_owner (posix.owner state.mem.mutex) i j (owned i hi) (owned j hj)),
  )

  -- As long as the server process has not exited, a client that goes away inside the lock frees it: after three more steps of its server thread the mutex is free.
  pub hang_up-frees :
      (i : ℕ)
      → (state.pc i).client ≡ inside
      → posix.owner
          (run
            (step posix)
            ((i, hang_up) ∷ (i, server_acts) ∷ (i, server_acts) ∷ (i, server_acts) ∷ [])
            state).mem.mutex
        ≡ none
  unfolding run turn step server_step
  hang_up-frees i h = rw (==_refl i) (
      gone-frees posix i state.mem (state.pc i).server (state.pc i).up (state.pc i).down
        (inside-awaiting (state.pc i).server (state.pc i).up (state.pc i).down (awaits i h)) here
        (owned i h))
