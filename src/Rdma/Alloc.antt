-- ===== src/Rdma/Alloc.antt =====
-- Buffers with their registration, litl2/src/rdma_common.c: `rdma_buffer_alloc`,
-- `rdma_buffer_register`, `rdma_buffer_free` and `rdma_buffer_deregister`. Whether there is a
-- protection domain, and what `calloc` and `ibv_reg_mr` answer, are arguments.
use dal.Prelude.{
  ℕ, ◌≡◌, refl, Bool, true, false, Option, none, some, List, [], ◌∷◌, ◌==◌, ==_refl, if◌then◌else◌,
}

-- The addresses of the buffers that are allocated, and of those that are registered.
pub record Heap : Type 0 where
  pub buffers : List ℕ
  pub regions : List ℕ

-- Without the first occurrence.
abbrev pub remove : ℕ → List ℕ → List ℕ
remove a [] = []
remove a (x ∷ xs) = if a == x then xs else x ∷ remove a xs

-- A region is its buffer's address.
unfoldable pub rdma_buffer_register : (pd registered : Bool) (addr : ℕ) → Heap → Option ℕ × Heap
rdma_buffer_register false registered addr h = (none, h)
rdma_buffer_register true false addr h = (none, h)
rdma_buffer_register true true addr h = (some addr, record h { regions = addr ∷ h.regions })

abbrev pub free : ℕ → Heap → Heap
free a h = record h { buffers = remove a h.buffers }

-- if (!mr) free(buf);
abbrev pub checked_region : ℕ → Option ℕ × Heap → Option ℕ × Heap
checked_region a (none, h) = (none, free a h)
checked_region a (some r, h) = (some r, h)

unfoldable pub rdma_buffer_alloc :
    (pd : Bool) (buf : Option ℕ) (registered : Bool) → Heap → Option ℕ × Heap
unfolding rdma_buffer_register
rdma_buffer_alloc false buf registered h = (none, h)
rdma_buffer_alloc true none registered h = (none, h)
rdma_buffer_alloc true (some a) registered h =
    checked_region a (rdma_buffer_register true registered a (record h { buffers = a ∷ h.buffers }))

unfoldable pub rdma_buffer_deregister : Option ℕ → Heap → Heap
rdma_buffer_deregister none h = h
rdma_buffer_deregister (some r) h = record h { regions = remove r h.regions }

unfoldable pub rdma_buffer_free : Option ℕ → Heap → Heap
unfolding rdma_buffer_deregister
rdma_buffer_free none h = h
rdma_buffer_free (some r) h = free r (rdma_buffer_deregister (some r) h)

-- Nothing leaks: what an allocation leaves, in success or in failure, is gone after its result is given to `rdma_buffer_free`, and every other buffer and region is still there.
pub rdma_buffer_free-alloc :
    (pd : Bool) (buf : Option ℕ) (registered : Bool) (h : Heap)
    → rdma_buffer_free
        (rdma_buffer_alloc pd buf registered h).0
        (rdma_buffer_alloc pd buf registered h).1
      ≡ h
unfolding rdma_buffer_free rdma_buffer_alloc
rdma_buffer_free-alloc false buf registered h = refl
rdma_buffer_free-alloc true none registered h = refl
rdma_buffer_free-alloc true (some a) false h = rw (==_refl a) refl
rdma_buffer_free-alloc true (some a) true h = rw (==_refl a) refl
