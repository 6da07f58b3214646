-- ===== src/Kernel/Heap/Join.antt =====
-- kernel.c: two neighbouring blocks of the heap that `kfree` makes one.
use ea_x.Prelude.{ℕ, ◌+◌, ◌<◌, ◌≡◌, ◌⊎◌, ◌^◌, true, false, Array, ◌==◌, if◌then◌else◌, arith}
use ea_x.Kernel.Heap.{MemBlock, set_prev, is_free, join_next, join_prev}

-- The blocks at `p` and `m`, and the link `q` of the second.
module _ (blocks : Array MemBlock) (p m n f prev n' f' q : ℕ)
    (first : blocks p ≡ record { size = n; free = f; next = m; prev = prev })
    (second : blocks m ≡ record { size = n'; free = f'; next = q; prev = p }) (start : 0 < p)
    (above : p < m) (behind : (q ≡ 0) ⊎ (m < q)) (end : n + n' < 2 ^ 32) where
  pub join_next-front :
      is_free f' ≡ true
      → join_next blocks p p ≡ record { size = n + n'; free = f; next = q; prev = prev }
  unfolding join_next
  join_next-front both = ground arith

  pub join_next-behind :
      (a : ℕ)
      → is_free f' ≡ true
      → m < a
      → join_next blocks p a ≡ (if q == 0 then blocks else set_prev blocks q p) a
  unfolding join_next
  join_next-behind a both h = ground arith

  pub join_next-kept : (a : ℕ) → is_free f' ≡ false → join_next blocks p a ≡ blocks a
  unfolding join_next
  join_next-kept a taken = ground arith

  pub join_next-low : (a : ℕ) → a < p → join_next blocks p a ≡ blocks a
  unfolding join_next
  join_next-low a h = ground arith

  pub join_prev-front :
      is_free f ≡ true
      → join_prev blocks m p ≡ record { size = n + n'; free = f; next = q; prev = prev }
  unfolding join_prev
  join_prev-front both = ground arith

  pub join_prev-behind :
      (a : ℕ)
      → is_free f ≡ true
      → m < a
      → join_prev blocks m a ≡ (if q == 0 then blocks else set_prev blocks q p) a
  unfolding join_prev
  join_prev-behind a both h = ground arith

  pub join_prev-kept : (a : ℕ) → is_free f ≡ false → join_prev blocks m a ≡ blocks a
  unfolding join_prev
  join_prev-kept a taken = ground arith

  pub join_prev-low : (a : ℕ) → a < p → join_prev blocks m a ≡ blocks a
  unfolding join_prev
  join_prev-low a h = ground arith
