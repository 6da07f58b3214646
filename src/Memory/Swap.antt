-- ===== src/Memory/Swap.antt =====
-- mem.c: the swap space, a stack of regions.
use ea_x.Prelude.{ℕ, ◌+◌, ◌-◌, ◌^◌, ◌≤◌, ◌<◌, ◌≡◌, u32, sub32, ltb, leb, ◌==◌, if◌then◌else◌, arith}
use ea_x.Memory.{MemoryManager}

pub mm_get_swap_size : MemoryManager → ℕ
mm_get_swap_size m = m.swap_size

pub mm_get_swap_used : MemoryManager → ℕ
mm_get_swap_used m = m.swap_used

unfoldable pub mm_set_swap_used : MemoryManager → ℕ → MemoryManager
mm_set_swap_used m amount = if leb amount m.swap_size then record m { swap_used = amount } else m

unfoldable pub mm_allocate_swap_space : MemoryManager → ℕ → ℕ × MemoryManager
mm_allocate_swap_space m size =
    if ltb m.swap_size (u32 (m.swap_used + size))
    then (0, m)
    else (sub32 (u32 (m.swap_used + size)) size, record m { swap_used = u32 (m.swap_used + size) })

unfoldable pub mm_free_swap_space : MemoryManager → ℕ → ℕ → MemoryManager
mm_free_swap_space m address size =
    if u32 (address + size) == m.swap_used
    then record m { swap_used = sub32 m.swap_used size }
    else m

-- The swap in use is within the swap there is.
pub record SwapIsValid (m : MemoryManager) : Type 0 where
  pub within : m.swap_used ≤ m.swap_size
  pub small : m.swap_size < 2 ^ 31

-- With no more swap in use than there is, and less than 2^31 bytes of it, no allocation, of
-- whatever size, and no setting of the amount takes more swap than there is.
swap-SwapIsValid :
    (m : MemoryManager) (size : ℕ)
    → SwapIsValid m
    → SwapIsValid (mm_allocate_swap_space m size).1 × SwapIsValid (mm_set_swap_used m size)
unfolding mm_allocate_swap_space mm_set_swap_used
swap-SwapIsValid m size v = ground arith

-- With no more swap in use than there is, and less than 2^31 bytes of it, a region that fits is
-- handed out at the old top, lies within the swap space, and freeing it at once gives back the
-- state from before.
mm_free_swap_space-allocate :
    (m : MemoryManager) (size : ℕ)
    → SwapIsValid m
    → m.swap_used + size ≤ m.swap_size
    → let (address, m') = mm_allocate_swap_space m size in
      (address ≡ m.swap_used)
      × (address + size ≤ m.swap_size)
      × (m'.swap_used ≡ address + size)
      × (mm_free_swap_space m' address size ≡ m)
unfolding mm_allocate_swap_space mm_free_swap_space
mm_free_swap_space-allocate m size v h = ground arith

-- The test of `mm_allocate_swap_space` wraps: with no more swap in use than there is, and less than
-- 2^31 bytes of it, a request of 2^32 - n bytes, for n above 0 and at most the bytes in use, is
-- granted, and gives the last n bytes in use back, though nobody freed them.
mm_allocate_swap_space-wraps :
    (m : MemoryManager) (n : ℕ)
    → SwapIsValid m
    → 0 < n
    → n ≤ m.swap_used
    → mm_allocate_swap_space m (2 ^ 32 - n)
      ≡ (m.swap_used, record m { swap_used = m.swap_used - n })
unfolding mm_allocate_swap_space
mm_allocate_swap_space-wraps m n v pos h = ground arith
