-- ===== src/Kernel/Heap/Take.antt =====
-- kernel.c: the store after `kmalloc` has taken a block.
use ea_x.Prelude.{ℕ, ◌+◌, ◌-◌, ◌≤◌, ◌<◌, ◌≡◌, ◌⊎◌, ◌^◌, Array, update, ◌==◌, if◌then◌else◌, arith}
use ea_x.Kernel.Heap.{MemBlock, set_prev, split, take_block}

-- Where `take_block` splits, at a block with `n` bytes.
module _ (blocks : Array MemBlock) (header size p n f q prev : ℕ)
    (here : blocks p ≡ record { size = n; free = f; next = q; prev = prev })
    (behind : (q ≡ 0) ⊎ (q ≡ p + n)) (some_bytes : 0 < size) (start : 0 < p) (end : p + n < 2 ^ 32)
    (no_wrap : size + header + 16 < 2 ^ 32) where
  pub split-front :
      size + header + 16 ≤ n
      → take_block header blocks size p p
        ≡ record { size = size; free = 0; next = p + size; prev = prev }
  unfolding take_block split
  split-front room = ground arith

  pub split-back :
      size + header + 16 ≤ n
      → take_block header blocks size p (p + size)
        ≡ record { size = n - size; free = 1; next = q; prev = p }
  unfolding take_block split
  split-back room = ground arith

  pub split-behind :
      (a : ℕ)
      → size + header + 16 ≤ n
      → p + n ≤ a
      → take_block header blocks size p a
        ≡ (if q == 0 then blocks else set_prev blocks q (p + size)) a
  unfolding take_block split
  split-behind a room h = ground arith

  pub whole-at :
      (a : ℕ)
      → n < size + header + 16
      → take_block header blocks size p a ≡ update blocks p (record (blocks p) { free = 0 }) a
  unfolding take_block
  whole-at a room = ground arith

  pub taken-below : (a : ℕ) → a < p → take_block header blocks size p a ≡ blocks a
  unfolding take_block split
  taken-below a h = ground arith
