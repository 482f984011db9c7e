-- ===== src/Interpose/Table.antt =====
-- The hash table from pthread mutexes to locks (CLHT, a library of its own): its documented
-- behaviour. An insertion of a key that is there changes nothing and says so.
use dal.Prelude.{ℕ, ◌≡◌, refl, Bool, true, false, Option, none, some, update}

pub record Clht : Type 1 where
  pub State : Type 0
  pub empty : State
  pub get : State → ℕ → Option ℕ
  pub put : State → ℕ → ℕ → State × Bool
  pub remove : State → ℕ → State × Option ℕ
  pub get-empty : (k : ℕ) → get empty k ≡ none
  pub put-done : (s : State) (k v : ℕ) → get s k ≡ none → (put s k v).1 ≡ true
  pub get-put :
      (s : State) (k v : ℕ)
      → get s k ≡ none
      → (x : ℕ) → get (put s k v).0 x ≡ update (get s) k (some v) x
  pub put-there : (s : State) (k v w : ℕ) → get s k ≡ some w → (put s k v).1 ≡ false
  pub get-put-there :
      (s : State) (k v w : ℕ) → get s k ≡ some w → (x : ℕ) → get (put s k v).0 x ≡ get s x
  pub remove-found : (s : State) (k : ℕ) → (remove s k).1 ≡ get s k
  pub get-remove : (s : State) (k x : ℕ) → get (remove s k).0 x ≡ update (get s) k none x

abbrev put_new : (ℕ → Option ℕ) → ℕ → ℕ → Option ℕ → (ℕ → Option ℕ) × Bool
put_new f k v none = (update f k (some v), true)
put_new f k v (some w) = (f, false)

-- A table that is just its lookup function meets the requirements.
abbrev pub lookups : Clht
lookups = record {
  State = ℕ → Option ℕ;
  empty = λ k. none;
  get = λ f. f;
  put = λ f k v. put_new f k v (f k);
  remove = λ f k. (update f k none, f k);
  get-empty = λ k. refl;
  put-done = λ f k v h. rw h refl;
  get-put = λ f k v h x. rw h refl;
  put-there = λ f k v w h. rw h refl;
  get-put-there = λ f k v w h x. rw h refl;
  remove-found = λ f k. refl;
  get-remove = λ f k x. refl;
}
