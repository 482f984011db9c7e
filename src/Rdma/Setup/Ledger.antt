-- ===== src/Rdma/Setup/Ledger.antt =====
-- The calls of `_shutdown` of litl2/src/rdma_server.c, in their order.
use mathlib.Core.List.{append_assoc, append-nil}
use dal.Prelude.{
  ℕ, zero, suc, ◌≡◌, refl, ap, sym, ◌∙◌, Bool, true, false, List, [], ◌∷◌, ◌++◌, if◌then◌else◌,
  arith,
}
use dal.Rdma.Setup.{
  Verb, disconnect, destroy_id, destroy_qp, destroy_comp_channel, dealloc_pd, Call, Reply, ok,
  failed, Library, State, Flow, go_on, returns, exits, Code, ◌▸◌, each, resume, checked, ignore,
  answered, made, skip,
}
use dal.Rdma.Setup.Client.{try}
use dal.Rdma.Setup.Server.{close_connection, shut_connections}

abbrev call_to : Verb → (c i : ℕ) → Call
call_to v c i = record { verb = v; client = c; thread = i }

-- The calls that close the connection of thread `i` of client `c`.
abbrev pub calls_closing : (c i : ℕ) → List Call
calls_closing c i =
    call_to disconnect c i
    ∷ call_to destroy_qp c i
    ∷ call_to destroy_comp_channel c i
    ∷ call_to dealloc_pd c i
    ∷ call_to destroy_id c i
    ∷ []

-- The lists of 0, 1, ... one after the other.
unfoldable pub gather : ℕ → (ℕ → List Call) → List Call
gather zero f = []
gather (suc n) f = gather n f ++ f n

abbrev pub closings : (connected : ℕ → ℕ → Bool) → (nclients nthreads : ℕ) → List Call
closings connected nclients nthreads =
    gather nclients (λ c. gather nthreads (λ i. if connected c i then calls_closing c i else []))

-- The code goes on, after the calls of a list in their order.
Makes : Code → List Call → Type 0
Makes f cs = (s : State) → ((f s).0 ≡ go_on) × ((f s).1.calls ≡ s.calls ++ cs)

resume-go : (r : Flow × State) (g : Code) → r.0 ≡ go_on → resume r g ≡ g r.1
resume-go (go_on, s) g e = refl
resume-go (returns z, s) g e = absurd (ground arith)
resume-go (exits, s) g e = absurd (ground arith)

Makes-▸ : (f g : Code) (a b : List Call) → Makes f a → Makes g b → Makes (f ▸ g) (a ++ b)
unfolding Makes
Makes-▸ f g a b hf hg s =
    let e = resume-go (f s) g (hf s).0 in
    (
      ap (λ r. r.0) e ∙ (hg (f s).1).0,
      ap (λ r. r.1.calls) e ∙ (hg (f s).1).1 ∙ ap (λ l. l ++ b) (hf s).1 ∙ append_assoc s.calls a b,
    )

Makes-skip : Makes skip []
unfolding Makes
Makes-skip s = (refl, sym (append-nil s.calls))

Makes-each :
    (n : ℕ) (f : ℕ → Code) (cs : ℕ → List Call)
    → ((i : ℕ) → Makes (f i) (cs i))
    → Makes (each n f) (gather n cs)
unfolding each gather
Makes-each zero f cs h = Makes-skip
Makes-each (suc n) f cs h =
    Makes-▸ (each n f) (f n) (gather n cs) (cs n) (Makes-each n f cs h) (h n)

ignored :
    (r : Reply) (c : Call) (s : State)
    → (answered ignore r ≡ go_on) × ((made c r s).calls ≡ s.calls ++ c ∷ [])
ignored ok c s = (refl, refl)
ignored (failed e) c s = (refl, refl)

Makes-try : (lib : Library) (v : Verb) (c t : ℕ) → Makes (try lib v c t) (call_to v c t ∷ [])
unfolding Makes checked
Makes-try lib v c t s = ignored _ _ s

close_all : (lib : Library) → (c i : ℕ) → Code
close_all lib c i =
    try lib disconnect c i
    ▸ try lib destroy_qp c i
    ▸ try lib destroy_comp_channel c i
    ▸ try lib dealloc_pd c i
    ▸ try lib destroy_id c i

Makes-close_all : (lib : Library) (c i : ℕ) → Makes (close_all lib c i) (calls_closing c i)
unfolding close_all
Makes-close_all lib c i =
    let t = λ (v : Verb). Makes-try lib v c i in
    Makes-▸ (try lib disconnect c i) _ (call_to disconnect c i ∷ []) _ (t disconnect) (
      Makes-▸ (try lib destroy_qp c i) _ (call_to destroy_qp c i ∷ []) _ (t destroy_qp) (
        Makes-▸ (try lib destroy_comp_channel c i) _ (call_to destroy_comp_channel c i ∷ []) _
          (t destroy_comp_channel)
          (Makes-▸ (try lib dealloc_pd c i) (try lib destroy_id c i) (call_to dealloc_pd c i ∷ [])
            (call_to destroy_id c i ∷ []) (t dealloc_pd) (t destroy_id))))

Makes-if :
    (b : Bool) (f : Code) (cs : List Call)
    → Makes f cs
    → Makes (if b then f else skip) (if b then cs else [])
Makes-if true f cs h = h
Makes-if false f cs h = Makes-skip

Makes-close :
    (lib : Library) (connected : ℕ → ℕ → Bool) (c i : ℕ)
    → Makes (close_connection lib connected c i) (if connected c i then calls_closing c i else [])
unfolding close_connection close_all
Makes-close lib connected c i =
    Makes-if (connected c i) (close_all lib c i) (calls_closing c i) (Makes-close_all lib c i)

-- Whatever the calls answer, `_shutdown` goes through all clients and threads, and the calls that it makes are, for each connection that was made and for no other, in this order: it disconnects it, destroys its queue pair and its completion channel, frees the protection domain, which the connections share, and destroys the id.
pub shut_connections-calls :
    (lib : Library) (connected : ℕ → ℕ → Bool) (nclients nthreads : ℕ) (s : State)
    → ((shut_connections lib connected nclients nthreads s).0 ≡ go_on)
      × ((shut_connections lib connected nclients nthreads s).1.calls
          ≡ s.calls ++ closings connected nclients nthreads)
unfolding Makes shut_connections
shut_connections-calls lib connected nclients nthreads =
    Makes-each nclients _ _ (λ c. Makes-each nthreads _ _ (λ i. Makes-close lib connected c i))
