-- ===== src/Stdlib/Alloc/Contents.antt =====
-- What the blocks of `calloc` and `realloc` hold.
use ea_x.Prelude.{
  ℕ, zero, suc, ◌+◌, ◌*◌, ◌≤◌, ◌<◌, ◌≡◌, ◌≢◌, refl, ◌&&◌, Array, update, u32, ltb, leb,
  if◌then◌else◌, arith,
}
use ea_x.Stdlib.Blocks.{memset, memcpy, copy_up}
use ea_x.Stdlib.Blocks.Copy.{copy_up-at, fill-at}
use ea_x.Stdlib.Alloc.{Heap, malloc, free, calloc, realloc}

-- A block that `calloc` gives has `nmemb * size` bytes, reduced by 2^32 where that does not fit: all of
-- these are 0, and every other byte of the memory is as before.
calloc_lem :
    (h : Heap) (nmemb size : ℕ)
    → (calloc h nmemb size).0 ≢ 0
    → let (ptr, h') = calloc h nmemb size in
      (ptr ≡ h.heap + h.heap_used)
      × ((a : ℕ)
          → h'.ram a ≡ (if leb ptr a && ltb a (ptr + u32 (nmemb * size)) then 0 else h.ram a))
unfolding calloc malloc memset
calloc_lem h nmemb size some_ptr = (
  ground arith,
  λ a. ground (arith, fill-at (u32 (nmemb * size)) h.ram (h.heap + h.heap_used) 0 a),
)

copy_up-below : (n : ℕ) (ram : Array ℕ) (d s a : ℕ) → a < d → copy_up ram d s n a ≡ ram a
unfolding copy_up
copy_up-below zero ram d s a h = refl
copy_up-below (suc n) ram d s a h =
    ground (arith, copy_up-below n (update ram d (ram s)) (suc d) (suc s) a)

-- Where a block of `old` bytes lies in the part of the heap in use, and `realloc` gives a new one, byte
-- `k` of the new block is that of the old, as long as both have it, and every byte in use before, the
-- whole old block among them, is as it was: the old block is not given back.
realloc_lem :
    (h : Heap) (ptr old size k a : ℕ)
    → ptr ≢ 0
    → ptr + old ≤ h.heap + h.heap_used
    → (realloc h ptr size).0 ≢ 0
    → k < old
    → k < size
    → a < h.heap + h.heap_used
    → let (new_ptr, h') = realloc h ptr size in
      (new_ptr ≡ h.heap + h.heap_used)
      × (h'.ram (new_ptr + k) ≡ h.ram (ptr + k))
      × (h'.ram a ≡ h.ram a)
unfolding realloc malloc memcpy free
realloc_lem h ptr old size k a nonnull within given has_old has_new below =
    let new_ptr = h.heap + h.heap_used in
    (
      ground arith,
      ground (arith, copy_up-at size h.ram new_ptr ptr (new_ptr + k)),
      ground (arith, copy_up-below size h.ram new_ptr ptr a),
    )
