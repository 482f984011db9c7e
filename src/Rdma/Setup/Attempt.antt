-- ===== src/Rdma/Setup/Attempt.antt =====
-- The order of checked calls as a list, and what an attempt at it does.
use mathlib.Core.List.{append_assoc, append-nil}
use dal.Prelude.{
  ℕ, zero, suc, ◌≡◌, ◌⊎◌, refl, sym, ap, ◌∙◌, fun_ext, List, [], ◌∷◌, ◌++◌, pos, arith, inl, inr,
  Bool-cases, subst, Bool, true, false,
}
use dal.Rdma.Setup.{
  Verb, Call, Reply, ok, failed, Library, State, Flow, go_on, returns, exits, Code, resume, ◌▸◌,
  skip, each, OnFailure, return_errno, return_einval, exit_failure, ignore, checked, made, answered,
  give_up, function,
}

abbrev pub Plan : Type 0
Plan = List (OnFailure × Call)

-- The part of a loop's plan for each index, in order.
unfoldable pub each_plan : ℕ → (ℕ → Plan) → Plan
each_plan zero f = []
each_plan (suc n) f = each_plan n f ++ f n

-- The verbs that one thread of one client needs, in order.
abbrev pub needs : List Verb → (c t : ℕ) → Plan
needs [] c t = []
needs (v ∷ vs) c t = (return_errno, record { verb = v; client = c; thread = t }) ∷ needs vs c t

abbrev pub calls_of : Plan → List Call
calls_of [] = []
calls_of ((h, c) ∷ p) = c ∷ calls_of p

-- Whether the code goes on after a reply.
abbrev pub passes : OnFailure → Reply → Bool
passes ignore (failed e) = true
passes return_errno (failed e) = false
passes return_einval (failed e) = false
passes exit_failure (failed e) = false
passes h ok = true

-- Every call of the plan whose failure matters is answered with success.
unfoldable pub AllOk : Library → List Call → Plan → Type 0
AllOk lib before [] = Unit
AllOk lib before ((h, c) ∷ p) = (passes h (lib before c) ≡ true) × AllOk lib (before ++ c ∷ []) p

module _ (lib : Library) where
  unfoldable pub attempt : Plan → Code
  attempt [] = skip
  attempt ((h, c) ∷ p) = checked lib h c ▸ attempt p

  resume_assoc : (r : Flow × State) (g k : Code) → resume (resume r g) k ≡ resume r (g ▸ k)
  resume_assoc (go_on, s) g k = refl
  resume_assoc (returns z, s) g k = refl
  resume_assoc (exits, s) g k = refl

  pub ▸-assoc : (f g k : Code) → ((f ▸ g) ▸ k) ≡ (f ▸ (g ▸ k))
  ▸-assoc f g k = fun_ext (λ s. resume_assoc (f s) g k)

  resume-skip : (r : Flow × State) → resume r skip ≡ r
  resume-skip (go_on, s) = refl
  resume-skip (returns z, s) = refl
  resume-skip (exits, s) = refl

  pub ▸-skip : (f : Code) → (f ▸ skip) ≡ f
  ▸-skip f = fun_ext (λ s. resume-skip (f s))

  pub attempt-append : (p q : Plan) → attempt (p ++ q) ≡ (attempt p ▸ attempt q)
  unfolding attempt
  attempt-append [] q = refl
  attempt-append ((h, c) ∷ p) q =
      ap (λ g. checked lib h c ▸ g) (attempt-append p q)
      ∙ sym (▸-assoc (checked lib h c) (attempt p) (attempt q))

  pub attempt-each :
      (n : ℕ) (f : ℕ → Code) (p : ℕ → Plan)
      → ((i : ℕ) → f i ≡ attempt (p i))
      → each n f ≡ attempt (each_plan n p)
  unfolding each each_plan attempt
  attempt-each zero f p h = refl
  attempt-each (suc n) f p h =
      rw (attempt-append (each_plan n p) (p n), attempt-each n f p h, h n) refl

-- The code made every call of the plan, in its order.
pub record Completed (lib : Library) (p : Plan) (s : State) (end : Flow) (r : Flow × State)
    : Type 0 where
  pub all_ok : AllOk lib s.calls p
  pub flow : r.0 ≡ end
  pub calls : r.1.calls ≡ s.calls ++ calls_of p

-- The code made the calls of the plan up to the first one whose failure matters, and stopped there.
pub record Stopped (lib : Library) (p : Plan) (s : State) (r : Flow × State) : Type 0 where
  pub before : Plan
  pub after : Plan
  pub how : OnFailure
  pub call : Call
  pub errno : ℕ
  pub splits : p ≡ before ++ (how, call) ∷ after
  pub all_ok : AllOk lib s.calls before
  pub reply : lib (s.calls ++ calls_of before) call ≡ failed errno
  pub matters : passes how (failed errno) ≡ false
  pub flow : r.0 ≡ give_up how errno
  pub calls : r.1.calls ≡ s.calls ++ calls_of (before ++ (how, call) ∷ [])

unfoldable pub Attempted : Library → Plan → State → Flow → (Flow × State) → Type 0
Attempted lib p s end r = Completed lib p s end r ⊎ Stopped lib p s r

bad_flow :
    (h : OnFailure) (e : ℕ) (s : State) (g : Code)
    → passes h (failed e) ≡ false
    → resume (give_up h e, s) g ≡ (give_up h e, s)
bad_flow return_errno e s g stop = refl
bad_flow return_einval e s g stop = refl
bad_flow exit_failure e s g stop = refl
bad_flow ignore e s g stop = absurd (ground arith)

good_flow : (h : OnFailure) (r : Reply) → passes h r ≡ true → answered h r ≡ go_on
good_flow h ok pass = refl
good_flow return_errno (failed e) pass = absurd (ground arith)
good_flow return_einval (failed e) pass = absurd (ground arith)
good_flow exit_failure (failed e) pass = absurd (ground arith)
good_flow ignore (failed e) pass = refl

made_calls : (c : Call) (r : Reply) (s : State) → (made c r s).calls ≡ s.calls ++ c ∷ []
made_calls c ok s = refl
made_calls c (failed e) s = refl

bad_reply : (h : OnFailure) (r : Reply) → passes h r ≡ false → (e : ℕ) × (r ≡ failed e)
bad_reply return_errno ok stop = absurd (ground arith)
bad_reply return_einval ok stop = absurd (ground arith)
bad_reply exit_failure ok stop = absurd (ground arith)
bad_reply ignore ok stop = absurd (ground arith)
bad_reply h (failed e) stop = (e, refl)

module _ (lib : Library) (h : OnFailure) (c : Call) (p : Plan) (s : State) where
  stops_here :
      (e : ℕ)
      → lib s.calls c ≡ failed e
      → passes h (failed e) ≡ false
      → Stopped lib ((h, c) ∷ p) s (attempt lib ((h, c) ∷ p) s)
  unfolding attempt checked AllOk
  stops_here e bad stop = record {
    before = [];
    after = p;
    how = h;
    call = c;
    errno = e;
    splits = refl;
    all_ok = tt;
    reply = rw (append-nil s.calls) bad;
    matters = stop;
    flow = rw (bad, bad_flow h e (made c (failed e) s) (attempt lib p) stop) refl;
    calls = rw (bad, bad_flow h e (made c (failed e) s) (attempt lib p) stop) refl;
  }

  pub next : State
  next = made c (lib s.calls c) s

  goes_on : passes h (lib s.calls c) ≡ true → attempt lib ((h, c) ∷ p) s ≡ attempt lib p next
  unfolding attempt checked next
  goes_on pass = rw (good_flow h (lib s.calls c) pass) refl

  next_calls : (q : List Call) → next.calls ++ q ≡ s.calls ++ c ∷ q
  unfolding next
  next_calls q = ap (λ x. x ++ q) (made_calls c (lib s.calls c) s) ∙ append_assoc s.calls (c ∷ []) q

  later :
      passes h (lib s.calls c) ≡ true
      → Attempted lib p next go_on (attempt lib p next)
      → Attempted lib ((h, c) ∷ p) s go_on (attempt lib ((h, c) ∷ p) s)
  unfolding Attempted AllOk next
  later pass (inl v) = inl (record {
    all_ok = (pass, rw (sym (made_calls c (lib s.calls c) s)) v.all_ok);
    flow = rw (goes_on pass) v.flow;
    calls = ap (λ r. r.1.calls) (goes_on pass) ∙ v.calls ∙ next_calls (calls_of p);
  })
  later pass (inr v) = inr (record {
    before = (h, c) ∷ v.before;
    after = v.after;
    how = v.how;
    call = v.call;
    errno = v.errno;
    splits = ap (λ q. (h, c) ∷ q) v.splits;
    all_ok = (pass, rw (sym (made_calls c (lib s.calls c) s)) v.all_ok);
    reply = ap (λ q. lib q v.call) (sym (next_calls (calls_of v.before))) ∙ v.reply;
    matters = v.matters;
    flow = rw (goes_on pass) v.flow;
    calls = ap (λ r. r.1.calls) (goes_on pass) ∙ v.calls ∙ next_calls _;
  })

-- An attempt at a plan makes all its calls, or stops at the first whose failure matters.
pub attempt_lem : (lib : Library) (p : Plan) (s : State) → Attempted lib p s go_on (attempt lib p s)
unfolding attempt Attempted AllOk
attempt_lem lib [] s = inl (record { all_ok = tt; flow = refl; calls = sym (append-nil s.calls) })
attempt_lem lib ((h, c) ∷ p) s = elim (Bool-cases (passes h (lib s.calls c))) [
  | inl pass ↦ later lib h c p s pass (attempt_lem lib p (next lib h c p s))
  | inr stop ↦
      let (e, bad) = bad_reply h (lib s.calls c) stop in
      inr (stops_here lib h c p s e bad (subst (λ r. passes h r ≡ false) bad stop))
]

resume_go : (f : Flow) (s : State) (g : Code) → f ≡ go_on → resume (f, s) g ≡ g s
resume_go go_on s g e = refl
resume_go (returns z) s g e = absurd (ground arith)
resume_go exits s g e = absurd (ground arith)

resume_stop :
    (h : OnFailure) (e : ℕ) (r : Flow × State) (g : Code)
    → passes h (failed e) ≡ false
    → r.0 ≡ give_up h e
    → resume r g ≡ r
resume_stop h e r g stop at =
    ap (λ f. resume (f, r.1) g) at ∙ bad_flow h e r.1 g stop ∙ ap (λ f. (f, r.1)) (sym at)

-- A function whose body is an attempt at a plan returns 0 at its end.
pub function_lem :
    (lib : Library) (p : Plan) (s : State)
    → Attempted lib p s (returns (pos 0)) (function (attempt lib p) s)
unfolding Attempted
function_lem lib p s = elim (attempt_lem lib p s) [
  | inl v ↦ inl (record {
    all_ok = v.all_ok;
    flow = ap (λ r. r.0) (resume_go (attempt lib p s).0 (attempt lib p s).1 _ v.flow);
    calls =
        ap (λ r. r.1.calls) (resume_go (attempt lib p s).0 (attempt lib p s).1 _ v.flow) ∙ v.calls;
  })
  | inr v ↦ inr (record {
    before = v.before;
    after = v.after;
    how = v.how;
    call = v.call;
    errno = v.errno;
    splits = v.splits;
    all_ok = v.all_ok;
    reply = v.reply;
    matters = v.matters;
    flow = ap (λ r. r.0) (resume_stop v.how v.errno (attempt lib p s) _ v.matters v.flow) ∙ v.flow;
    calls =
        ap (λ r. r.1.calls) (resume_stop v.how v.errno (attempt lib p s) _ v.matters v.flow)
        ∙ v.calls;
  })
]
