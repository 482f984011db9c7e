-- ===== src/Interpose/Sharing.antt =====
-- Without destroys: what a thread knows of the table stays true.
use dal.Prelude.{
  ℕ, ◌≡◌, ◌≢◌, refl, Bool, true, false, Option, none, some, List, arith, update, All, leb,
  if◌then◌else◌, Bool-cases, Option-cases, inl, inr, ◌==◌,
}
use dal.Interleave.{run_where}
use dal.Interpose.Table.{Clht}
use dal.Interpose.{
  max_threads, Process, Pc, starting, running, using, getting, creating, putting, losing, regetting,
  removing, destroying, freeing, crashed, Choice, call_use, call_init, call_destroy, proceed,
  Purpose, to_use, to_init, created, after_get, after_reget, draw_id, advance, step,
}
use dal.Interpose.Steps.{reached}

-- `f` is the table's lookup.
abbrev pub Knows : (ℕ → Option ℕ) → Pc → Type 0
Knows f (using id x k) = f x ≡ some k
Knows f (losing id x k u) = f x ≢ none
Knows f (regetting id x u) = f x ≢ none
Knows f (removing id x) = true ≡ false
Knows f (destroying id k) = true ≡ false
Knows f (freeing id k) = true ≡ false
Knows f crashed = true ≡ false
Knows f _ = Unit

abbrev pub destroys : Choice → Bool
destroys (call_destroy x) = true
destroys _ = false

-- Entries are only added.
abbrev Grows : (ℕ → Option ℕ) → (ℕ → Option ℕ) → Type 0
Grows f g = (x k : ℕ) → f x ≡ some k → g x ≡ some k

Grows-there : (f g : ℕ → Option ℕ) (x : ℕ) → Grows f g → f x ≢ none → g x ≢ none
Grows-there f g x more h e = elim (Option-cases (f x)) [
  | inl none_f ↦ h none_f
  | inr (k, some_f) ↦ cc (more x k some_f, e)
]

Knows-Grows : (f g : ℕ → Option ℕ) (p : Pc) → Grows f g → Knows f p → Knows g p
Knows-Grows f g (using id x k) more h = more x k h
Knows-Grows f g (losing id x k u) more h = Grows-there f g x more h
Knows-Grows f g (regetting id x u) more h = Grows-there f g x more h
Knows-Grows f g (removing id x) more h = h
Knows-Grows f g (destroying id k) more h = h
Knows-Grows f g (freeing id k) more h = h
Knows-Grows f g crashed more h = h
Knows-Grows f g _ more h = tt

module _ (clht : Clht) where
  open clht use {State, get, put, remove}

  -- A step whose thread knows enough afterwards.
  Knows-update :
      (f g : ℕ → Option ℕ) (pc : ℕ → Pc) (i : ℕ) (p' : Pc)
      → Grows f g
      → ((j : ℕ) → Knows f (pc j))
      → Knows g p'
      → (j : ℕ) → Knows g (update pc i p' j)
  Knows-update f g pc i p' more all own j = elim (Bool-cases (i == j)) [
    | inl t ↦ rw t own
    | inr t ↦ rw t (Knows-Grows f g (pc j) more (all j))
  ]

  module _ (m : Process State) (pc : ℕ → Pc) (i : ℕ)
      (all : (j : ℕ) → Knows (get m.table) (pc j)) where
    stay : (p' : Pc) → Knows (get m.table) p' → (j : ℕ) → Knows (get m.table) (update pc i p' j)
    stay p' own = Knows-update (get m.table) (get m.table) pc i p' (λ x k h. h) all own

    -- Either way the mutex has its entry after the insertion.
    put_it :
        (id x k : ℕ) (u : Purpose) (j : ℕ)
        → Knows
            (get (put m.table x k).0)
            (update pc i (if (put m.table x k).1 then created id x k u else losing id x k u) j)
    put_it id x k u = elim (Option-cases (get m.table x)) [
      | inl free ↦ rw (clht.put-done m.table x k free) (
          Knows-update (get m.table) _ pc i (created id x k u)
            (λ y w h. ground (arith, clht.get-put m.table x k free y)) all (own u free))
      | inr (w, there) ↦ rw (clht.put-there m.table x k w there) (
          Knows-update (get m.table) _ pc i (losing id x k u)
            (λ y w' h. ground (arith, clht.get-put-there m.table x k w there y)) all
            (λ h. ground (arith, clht.get-put-there m.table x k w there x)))
    ]
      where
        own :
            (u : Purpose)
            → get m.table x ≡ none
            → Knows (get (put m.table x k).0) (created id x k u)
        own to_use free = ground (arith, clht.get-put m.table x k free x)
        own to_init free = tt

    got : (id x : ℕ) (o : Option ℕ) → get m.table x ≡ o → Knows (get m.table) (after_get id x o)
    got id x none e = tt
    got id x (some k) e = e

    regot :
        (id x : ℕ) (o : Option ℕ) (u : Purpose)
        → get m.table x ≡ o
        → get m.table x ≢ none
        → Knows (get m.table) (after_reget id x o u)
    regot id x none u e h = absurd (h e)
    regot id x (some k) to_use e h = e
    regot id x (some k) to_init e h = tt

    draw : (j : ℕ) → Knows (get (draw_id clht m).0.table) (update pc i (draw_id clht m).1 j)
    unfolding draw_id
    draw = elim (Bool-cases (leb max_threads m.last_thread_id)) [
      | inl t ↦ rw t (stay starting tt)
      | inr t ↦ rw t (stay (running m.last_thread_id) tt)
    ]

    Knows-advance :
        (c : Choice) (p : Pc)
        → destroys c ≡ false
        → Knows (get m.table) p
        → (j : ℕ) → Knows (get (advance clht c m p).0.table) (update pc i (advance clht c m p).1 j)
    unfolding advance
    Knows-advance c starting ok h = draw
    Knows-advance (call_use x) (running id) ok h = stay _ tt
    Knows-advance (call_init x) (running id) ok h = stay _ tt
    Knows-advance (call_destroy x) (running id) ok h = absurd (ground arith)
    Knows-advance proceed (running id) ok h = stay _ tt
    Knows-advance c (using id x k) ok h = stay _ tt
    Knows-advance c (getting id x) ok h = stay _ (got id x (get m.table x) refl)
    Knows-advance c (creating id x u) ok h = stay _ tt
    Knows-advance c (putting id x k u) ok h = put_it id x k u
    Knows-advance c (losing id x k u) ok h = stay _ h
    Knows-advance c (regetting id x u) ok h = stay _ (regot id x (get m.table x) u refl h)
    Knows-advance c (removing id x) ok h = absurd (ground arith)
    Knows-advance c (destroying id k) ok h = absurd (ground arith)
    Knows-advance c (freeing id k) ok h = absurd (ground arith)
    Knows-advance c crashed ok h = absurd (ground arith)

    gated :
        (c : Choice) (b : Bool)
        → destroys c ≡ false
        → (j : ℕ)
        → Knows
            (get (if b then (m, pc i) else advance clht c m (pc i)).0.table)
            (update pc i (if b then (m, pc i) else advance clht c m (pc i)).1 j)
    gated c true ok = stay (pc i) (all i)
    gated c false ok = Knows-advance c (pc i) ok (all i)

    pub Knows-step :
        (c : Choice)
        → destroys c ≡ false
        → (j : ℕ)
        → Knows (get (step clht i c m (pc i)).0.table) (update pc i (step clht i c m (pc i)).1 j)
    unfolding step
    Knows-step c = gated c m.exited

  pub reached-Knows :
      (l : List (ℕ × Choice))
      → All (λ e. destroys e.1 ≡ false) l
      → (i : ℕ) → Knows (get (reached clht l).mem.table) ((reached clht l).pc i)
  reached-Knows l ok =
      run_where (step clht) (λ e. destroys e.1 ≡ false)
        (λ m pc. (i : ℕ) → Knows (get m.table) (pc i)) (λ i c m pc q all. Knows-step m pc i all c q)
        l _ ok (λ i. tt)
