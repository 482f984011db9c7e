-- ===== src/Tcp/Exclusion.antt =====
-- What is on the way between a client and its server thread.
use dal.Prelude.{
  ℕ, ◌≡◌, refl, ap, sym, Bool, true, false, Option, none, some, List, [], ◌∷◌, ◌++◌, arith,
  Bool-cases, inl, inr, if◌then◌else◌, subst,
}
use dal.Posix.{PosixMutex, is_free}
use dal.Tcp.Service.{
  await, Message, lock_msg, rel_msg, granted_msg, released_msg, Client, outside, requested, inside,
  releasing, closed, Server, looping, receiving, locking, granting, awaiting, confirming, unlocking,
  stopped, Connection, Memory, client_step, receive, server_step, is_closed,
}

-- What is on the way, by where client and server stand.
abbrev pub Linked : Client → Server → List Message → List Message → Type 0
Linked closed s up down = Unit
Linked outside receiving up down = (up ≡ []) × (down ≡ [])
Linked outside looping up down = (up ≡ []) × (down ≡ [])
Linked outside unlocking up down = (up ≡ []) × (down ≡ [])
Linked outside stopped up down = (up ≡ []) × (down ≡ [])
Linked requested receiving up down = (up ≡ lock_msg ∷ []) × (down ≡ [])
Linked requested looping up down = (up ≡ lock_msg ∷ []) × (down ≡ [])
Linked requested unlocking up down = (up ≡ lock_msg ∷ []) × (down ≡ [])
Linked requested stopped up down = (up ≡ lock_msg ∷ []) × (down ≡ [])
Linked requested locking up down = (up ≡ []) × (down ≡ [])
Linked requested granting up down = (up ≡ []) × (down ≡ [])
Linked requested awaiting up down = (up ≡ []) × (down ≡ granted_msg ∷ [])
Linked inside awaiting up down = (up ≡ []) × (down ≡ [])
Linked releasing awaiting up down = (up ≡ rel_msg ∷ []) × (down ≡ [])
Linked releasing confirming up down = (up ≡ []) × (down ≡ [])
Linked releasing unlocking up down = (up ≡ []) × (down ≡ released_msg ∷ [])
Linked releasing receiving up down = (up ≡ []) × (down ≡ released_msg ∷ [])
Linked releasing looping up down = (up ≡ []) × (down ≡ released_msg ∷ [])
Linked releasing stopped up down = (up ≡ []) × (down ≡ released_msg ∷ [])
Linked _ _ up down = false ≡ true

abbrev pub IsLinked : Connection → Type 0
IsLinked c = Linked c.client c.server c.up c.down

pub client_step-IsLinked :
    (k : Client) (s : Server) (up down : List Message)
    → Linked k s up down
    → IsLinked (client_step false (record { client = k; server = s; up = up; down = down }) k)
unfolding client_step
client_step-IsLinked closed s up down h = tt
client_step-IsLinked outside receiving up down h = (ap (λ q. q ++ lock_msg ∷ []) h.0, h.1)
client_step-IsLinked outside looping up down h = (ap (λ q. q ++ lock_msg ∷ []) h.0, h.1)
client_step-IsLinked outside unlocking up down h = (ap (λ q. q ++ lock_msg ∷ []) h.0, h.1)
client_step-IsLinked outside stopped up down h = (ap (λ q. q ++ lock_msg ∷ []) h.0, h.1)
client_step-IsLinked requested receiving up down h = rw (h.0, h.1) (refl, refl)
client_step-IsLinked requested looping up down h = rw (h.0, h.1) (refl, refl)
client_step-IsLinked requested unlocking up down h = rw (h.0, h.1) (refl, refl)
client_step-IsLinked requested stopped up down h = rw (h.0, h.1) (refl, refl)
client_step-IsLinked requested locking up down h = rw (h.0, h.1) (refl, refl)
client_step-IsLinked requested granting up down h = rw (h.0, h.1) (refl, refl)
client_step-IsLinked requested awaiting up down h = rw (h.0, h.1) (refl, refl)
client_step-IsLinked inside awaiting up down h = rw (h.0, h.1) (refl, refl)
client_step-IsLinked releasing awaiting up down h = rw (h.0, h.1) (refl, refl)
client_step-IsLinked releasing confirming up down h = rw (h.0, h.1) (refl, refl)
client_step-IsLinked releasing unlocking up down h = rw (h.0, h.1) (refl, refl)
client_step-IsLinked releasing receiving up down h = rw (h.0, h.1) (refl, refl)
client_step-IsLinked releasing looping up down h = rw (h.0, h.1) (refl, refl)
client_step-IsLinked releasing stopped up down h = rw (h.0, h.1) (refl, refl)
client_step-IsLinked _ _ up down h = absurd (ground arith)

pub free_none : (o : Option ℕ) → is_free o ≡ true → o ≡ none
free_none none h = refl
free_none (some i) h = absurd (ground arith)

pub closed-IsLinked : (c : Connection) → c.client ≡ closed → IsLinked c
closed-IsLinked c e = subst (λ k. Linked k c.server c.up c.down) (sym e) tt

-- Whether the server thread of a connection has the mutex.
abbrev pub has_mutex : Server → Bool
has_mutex granting = true
has_mutex awaiting = true
has_mutex confirming = true
has_mutex unlocking = true
has_mutex _ = false

module _ (posix : PosixMutex) where
  open posix use {State, fresh, owner, taken, freed, owner-taken, owner-freed}

  pub receive_lem :
      (m : Memory State) (up : List Message) (c : Connection)
      → ((receive posix m up c).1.client ≡ c.client)
        × ((receive posix m up c).0.mutex ≡ m.mutex)
        × (has_mutex c.server ≡ false → has_mutex (receive posix m up c).1.server ≡ false)
  unfolding receive
  receive_lem m (lock_msg ∷ up) c = (refl, refl, λ h. refl)
  receive_lem m (_ ∷ up) c = (refl, refl, λ h. refl)
  receive_lem m [] c = elim (Bool-cases (is_closed c.client)) [
    | inl e ↦ rw e (refl, refl, λ h. refl)
    | inr e ↦ rw e (refl, refl, λ h. h)
  ]

  pub await_lem :
      (up : List Message) (c : Connection)
      → has_mutex c.server ≡ true
      → ((await posix up c).client ≡ c.client) × (has_mutex (await posix up c).server ≡ true)
  await_lem (x ∷ up) c h = (refl, refl)
  await_lem [] c h = elim (Bool-cases (is_closed c.client)) [
    | inl e ↦ rw e (refl, refl)
    | inr e ↦ rw e (refl, h)
  ]

  recv_outside :
      (m : Memory State) (up down : List Message)
      → Linked outside receiving up down
      → IsLinked
          (receive posix m up
            (record { client = outside; server = receiving; up = up; down = down })).1
  unfolding receive
  recv_outside m up down h = rw h.0 (refl, h.1)

  looped_outside :
      (b : Bool) (up down : List Message)
      → Linked outside looping up down
      → Linked outside (if b then receiving else stopped) up down
  looped_outside true up down h = h
  looped_outside false up down h = h

  recv_requested :
      (m : Memory State) (up down : List Message)
      → Linked requested receiving up down
      → IsLinked
          (receive posix m up
            (record { client = requested; server = receiving; up = up; down = down })).1
  unfolding receive
  recv_requested m up down h = rw h.0 (refl, h.1)

  looped_requested :
      (b : Bool) (up down : List Message)
      → Linked requested looping up down
      → Linked requested (if b then receiving else stopped) up down
  looped_requested true up down h = h
  looped_requested false up down h = h

  recv_releasing :
      (m : Memory State) (up down : List Message)
      → Linked releasing receiving up down
      → IsLinked
          (receive posix m up
            (record { client = releasing; server = receiving; up = up; down = down })).1
  unfolding receive
  recv_releasing m up down h = rw h.0 (refl, h.1)

  looped_releasing :
      (b : Bool) (up down : List Message)
      → Linked releasing looping up down
      → Linked releasing (if b then receiving else stopped) up down
  looped_releasing true up down h = h
  looped_releasing false up down h = h

  pub looped_free : (b : Bool) → has_mutex (if b then receiving else stopped) ≡ false
  looped_free true = refl
  looped_free false = refl

  pub await_client : (up : List Message) (c : Connection) → (await posix up c).client ≡ c.client
  await_client (x ∷ up) c = refl
  await_client [] c = elim (Bool-cases (is_closed c.client)) [
    | inl e ↦ rw e refl
    | inr e ↦ rw e refl
  ]

  server_step_client :
      (i : ℕ) (m : Memory State) (c : Connection) (s : Server)
      → (server_step posix i m c s).1.client ≡ c.client
  unfolding server_step
  server_step_client i m c looping = refl
  server_step_client i m c receiving = (receive_lem m c.up c).0
  server_step_client i m c locking = elim (Bool-cases (is_free (owner m.mutex))) [
    | inl free ↦ rw free refl
    | inr used ↦ rw used refl
  ]
  server_step_client i m c granting = refl
  server_step_client i m c awaiting = await_client c.up c
  server_step_client i m c confirming = refl
  server_step_client i m c unlocking = refl
  server_step_client i m c stopped = refl

  pub server_step-IsLinked :
      (i : ℕ) (m : Memory State) (k : Client) (s : Server) (up down : List Message)
      → Linked k s up down
      → IsLinked
          (server_step posix i m (record { client = k; server = s; up = up; down = down }) s).1
  unfolding server_step receive
  server_step-IsLinked i m closed s up down h =
      closed-IsLinked _
        (server_step_client i m (record { client = closed; server = s; up = up; down = down }) s)
  server_step-IsLinked i m outside receiving up down h = recv_outside m up down h
  server_step-IsLinked i m outside looping up down h = looped_outside m.bench_running up down h
  server_step-IsLinked i m outside unlocking up down h = h
  server_step-IsLinked i m outside stopped up down h = h
  server_step-IsLinked i m requested receiving up down h = recv_requested m up down h
  server_step-IsLinked i m requested looping up down h = looped_requested m.bench_running up down h
  server_step-IsLinked i m requested unlocking up down h = h
  server_step-IsLinked i m requested stopped up down h = h
  server_step-IsLinked i m requested locking up down h =
      elim (Bool-cases (is_free (owner m.mutex))) [ inl free ↦ rw free h | inr used ↦ rw used h ]
  server_step-IsLinked i m requested granting up down h = rw (h.0, h.1) (refl, refl)
  server_step-IsLinked i m requested awaiting up down h = rw (h.0, h.1) (refl, refl)
  server_step-IsLinked i m inside awaiting up down h = rw (h.0, h.1) (refl, refl)
  server_step-IsLinked i m releasing awaiting up down h = rw (h.0, h.1) (refl, refl)
  server_step-IsLinked i m releasing confirming up down h = rw (h.0, h.1) (refl, refl)
  server_step-IsLinked i m releasing unlocking up down h = h
  server_step-IsLinked i m releasing receiving up down h = recv_releasing m up down h
  server_step-IsLinked i m releasing looping up down h = looped_releasing m.bench_running up down h
  server_step-IsLinked i m releasing stopped up down h = h
  server_step-IsLinked i m _ _ up down h = absurd (ground arith)
