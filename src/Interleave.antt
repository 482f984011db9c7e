-- ===== src/Interleave.antt =====
-- Threads that share a memory, interleaved in any order. A thread is a program counter with its
-- live locals; one of its steps is one access to the shared memory (sequential consistency).
use dal.Prelude.{ℕ, ◌<◌, ◌≡◌, refl, List, [], ◌∷◌, ◌++◌, All, update}

pub record System (M P : Type 0) : Type 0 where
  pub mem : M
  pub pc : ℕ → P

-- A step of thread `i` under the environment's choice `c`.
abbrev pub Steps : Type 0 → Type 0 → Type 0 → Type 0
Steps M P C = ℕ → C → M → P → M × P

module _ {M P C : Type 0} (step : Steps M P C) where
  unfoldable pub turn : ℕ → C → System M P → System M P
  turn i c s = let r = step i c s.mem (s.pc i) in record { mem = r.0; pc = update s.pc i r.1 }

  -- A schedule names the thread that moves and its choice.
  unfoldable pub run : List (ℕ × C) → System M P → System M P
  unfolding turn
  run [] s = s
  run ((i, c) ∷ l) s = run l (turn i c s)

  -- What each step that a condition allows keeps, every schedule of such steps keeps.
  pub run_where :
      (Allowed : ℕ × C → Type 0) (Inv : M → (ℕ → P) → Type 0)
      → ((i : ℕ) (c : C) (m : M) (pc : ℕ → P)
          → Allowed (i, c)
          → Inv m pc
          → Inv (step i c m (pc i)).0 (update pc i (step i c m (pc i)).1))
      → (l : List (ℕ × C)) (s : System M P) → All Allowed l
      → Inv s.mem s.pc
      → Inv (run l s).mem (run l s).pc
  unfolding turn run
  run_where Allowed Inv keep [] s ok h = h
  run_where Allowed Inv keep ((i, c) ∷ l) s ok h =
      run_where Allowed Inv keep l (turn i c s) ok.1 (keep i c s.mem s.pc ok.0 h)

  -- What each step of the first `n` threads keeps, their every schedule keeps.
  pub run_inv :
      (n : ℕ) (Inv : M → (ℕ → P) → Type 0)
      → ((i : ℕ) (c : C) (m : M) (pc : ℕ → P)
          → i < n
          → Inv m pc
          → Inv (step i c m (pc i)).0 (update pc i (step i c m (pc i)).1))
      → (l : List (ℕ × C)) (s : System M P) → All (λ e. e.0 < n) l
      → Inv s.mem s.pc
      → Inv (run l s).mem (run l s).pc
  run_inv n = run_where (λ e. e.0 < n)

  -- What each step of any thread keeps, every schedule keeps.
  pub run_keeps :
      (Inv : M → (ℕ → P) → Type 0)
      → ((i : ℕ) (c : C) (m : M) (pc : ℕ → P)
          → Inv m pc
          → Inv (step i c m (pc i)).0 (update pc i (step i c m (pc i)).1))
      → (l : List (ℕ × C)) (s : System M P) → Inv s.mem s.pc
      → Inv (run l s).mem (run l s).pc
  unfolding turn run
  run_keeps Inv keep [] s h = h
  run_keeps Inv keep ((i, c) ∷ l) s h = run_keeps Inv keep l (turn i c s) (keep i c s.mem s.pc h)

  -- A schedule in two parts runs the one after the other.
  pub run-append : (l l' : List (ℕ × C)) (s : System M P) → run (l ++ l') s ≡ run l' (run l s)
  unfolding run
  run-append [] l' s = refl
  run-append ((i, c) ∷ l) l' s = run-append l l' (turn i c s)
