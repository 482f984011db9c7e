-- ===== src/Rdma/Nic.antt =====
-- What the RDMA verbs do to the memory of the memory node: the network card and its library are
-- not part of the repository, so this is a parameter. What the code relies on is their documented
-- behaviour: an atomic compare-and-swap or a write of 8 bytes concerns the word at its address and
-- no other, a write of a block concerns the bytes of that block, and the words of the locks and the
-- data blocks are registered as separate regions.
use dal.Prelude.{
  ℕ, ◌+◌, ◌*◌, ◌≤◌, ◌<◌, ◌≡◌, ◌⊎◌, refl, ap, ◌==◌, ltb, leb, ◌&&◌, ◌-◌, ◌/◌, if◌then◌else◌, update,
  arith,
}

pub record Nic : Type 1 where
  pub Remote : Type 0
  pub word : Remote → ℕ → ℕ  -- the 64-bit word at an address of the lock region
  pub int_at : Remote → ℕ → ℕ  -- the 32-bit integer at an address of the data region
  pub compare_swap : (addr expected new : ℕ) → Remote → Remote
  pub write_word : (addr value : ℕ) → Remote → Remote
  pub write_block : (addr bytes : ℕ) → (ℕ → ℕ) → Remote → Remote  -- from an array of integers
  pub word-compare_swap :
      (a e v : ℕ) (r : Remote) (b : ℕ)
      → word (compare_swap a e v r) b
        ≡ (if a == b then if word r a == e then v else word r a else word r b)
  pub int_at-compare_swap :
      (a e v : ℕ) (r : Remote) (b : ℕ) → int_at (compare_swap a e v r) b ≡ int_at r b
  pub word-write_word :
      (a v : ℕ) (r : Remote) (b : ℕ) → word (write_word a v r) b ≡ (if a == b then v else word r b)
  pub int_at-write_word : (a v : ℕ) (r : Remote) (b : ℕ) → int_at (write_word a v r) b ≡ int_at r b
  pub word-write_block :
      (a n : ℕ) (f : ℕ → ℕ) (r : Remote) (b : ℕ) → word (write_block a n f r) b ≡ word r b
  pub int_at-write_block :
      (a n : ℕ) (f : ℕ → ℕ) (r : Remote) (k : ℕ)
      → 4 * k < n
      → int_at (write_block a n f r) (a + 4 * k) ≡ f k
  pub int_at-write_block_apart :
      (a n : ℕ) (f : ℕ → ℕ) (r : Remote) (b : ℕ)
      → (b < a) ⊎ (a + n ≤ b)
      → int_at (write_block a n f r) b ≡ int_at r b

-- Two arrays of cells meet the requirements.
abbrev pub cells_write : ℕ → ℕ → (ℕ → ℕ) → (ℕ → ℕ) → ℕ → ℕ
cells_write a n f ints b = if leb a b && ltb b (a + n) then f ((b - a) / 4) else ints b

pub cells_inside :
    (a n : ℕ) (f ints : ℕ → ℕ) (k : ℕ) → 4 * k < n → cells_write a n f ints (a + 4 * k) ≡ f k
cells_inside a n f ints k h =
    let e : (a + 4 * k - a) / 4 ≡ k = omega arith in ground (arith, ap f e)

pub cells_apart :
    (a n : ℕ) (f ints : ℕ → ℕ) (b : ℕ) → (b < a) ⊎ (a + n ≤ b) → cells_write a n f ints b ≡ ints b
cells_apart a n f ints b h = ground arith

abbrev pub Cells : Type 0
Cells = record { words : ℕ → ℕ; ints : ℕ → ℕ }

abbrev pub cells : Nic
cells = record {
  Remote = Cells;
  word = λ r. r.words;
  int_at = λ r. r.ints;
  compare_swap = λ a e v r. record {
    words = update r.words a (if r.words a == e then v else r.words a);
    ints = r.ints;
  };
  write_word = λ a v r. record { words = update r.words a v; ints = r.ints };
  write_block = λ a n f r. record { words = r.words; ints = cells_write a n f r.ints };
  word-compare_swap = λ a e v r b. refl;
  int_at-compare_swap = λ a e v r b. refl;
  word-write_word = λ a v r b. refl;
  int_at-write_word = λ a v r b. refl;
  word-write_block = λ a n f r b. refl;
  int_at-write_block = λ a n f r k h. cells_inside a n f r.ints k h;
  int_at-write_block_apart = λ a n f r b h. cells_apart a n f r.ints b h;
}
