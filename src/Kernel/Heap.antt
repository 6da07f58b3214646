-- ===== src/Kernel/Heap.antt =====
-- kernel.c: the heap of kmalloc and kfree.
--
-- A block is its header, which stands at the start of the bytes that its size counts. The store has one
-- header for each address, so that headers must not overlap: they do not, since the blocks lie apart and
-- every size is above 0, if the header is no longer than the least block. kernel.h is not in the repository:
-- `header` is sizeof(struct mem_block), and `align_up` is ALIGN_UP(_, 16), on the native numbers.
pub mod Chain
pub mod Take
pub mod Allocate
pub mod Join
pub mod Release
pub mod Free
pub mod Merged
pub mod RoundTrip
pub mod InUse
pub mod Held
pub mod Run
pub mod Clients
pub mod Restored
use ea_x.Prelude.{
  ℕ, zero, suc, ◌+◌, ◌-◌, Bool, ◌&&◌, true, false, not, Option, none, some, Array, update, u32,
  sub32, leb, ◌==◌, if◌then◌else◌,
}

pub record MemBlock : Type 0 where
  pub size : ℕ
  pub free : ℕ
  pub next : ℕ
  pub prev : ℕ

-- `block->prev = v`
abbrev pub set_prev : Array MemBlock → ℕ → ℕ → Array MemBlock
set_prev blocks p v = update blocks p (record (blocks p) { prev = v })

-- What `memory_init` leaves but for the size: `heap_end_addr - heap_start` subtracts a pointer from a
-- number, which C does not allow, so that the size is an argument.
unfoldable pub memory_init : Array MemBlock → (heap_current size : ℕ) → ℕ × Array MemBlock
memory_init blocks heap_current size = (
  heap_current,
  update blocks heap_current (record { size = size; free = 1; next = 0; prev = 0 }),
)

abbrev pub is_free : ℕ → Bool
is_free f = not (f == 0)

-- The first block from `current` on that is free and large enough, or NULL.
unfoldable pub first_fit : ℕ → Array MemBlock → (size current : ℕ) → Option ℕ
first_fit zero blocks size current = none
first_fit (suc fuel) blocks size current = elim (current == 0) [
  | true ↦ some 0
  | false ↦ elim (is_free (blocks current).free && leb size (blocks current).size) [
    | true ↦ some current
    | false ↦ first_fit fuel blocks size (blocks current).next
  ]
]

-- The new block behind the first `size` bytes of `current`, linked into the list.
unfoldable pub split : Array MemBlock → (size current : ℕ) → Array MemBlock
split blocks size current =
    let new_block = u32 (current + size) in
    let made = update blocks new_block (record {
      size = sub32 (blocks current).size size;
      free = 1;
      next = (blocks current).next;
      prev = current;
    }) in
    let linked =
      if (made current).next == 0 then made else set_prev made (made current).next new_block in
    update linked current (record (linked current) { next = new_block; size = size })

module _ (header : ℕ) where
  unfoldable pub take_block : Array MemBlock → (size current : ℕ) → Array MemBlock
  take_block blocks size current =
      let blocks' =
        if leb (u32 (size + header + 16)) (blocks current).size
        then split blocks size current
        else blocks in
      update blocks' current (record (blocks' current) { free = 0 })

  -- The pointer returned, and the new blocks.
  unfoldable pub kmalloc :
      (ℕ → ℕ) → ℕ → (heap_start : ℕ) → Array MemBlock → (size : ℕ) → Option (ℕ × Array MemBlock)
  kmalloc align_up fuel heap_start blocks size =
      if size == 0
      then some (0, blocks)
      else elim (first_fit fuel blocks (align_up size) heap_start) [
        | none ↦ none
        | some current ↦
            if current == 0
            then some (0, blocks)
            else some (u32 (current + header), take_block blocks (align_up size) current)
      ]

-- A free block behind the block is made part of it.
unfoldable pub join_next : Array MemBlock → ℕ → Array MemBlock
join_next blocks block =
    let next = (blocks block).next in
    if not (next == 0) && is_free (blocks next).free
    then (let after = (blocks next).next in
        let grown = update blocks block (record (blocks block) {
          size = u32 ((blocks block).size + (blocks next).size);
          next = after;
        }) in
        if after == 0 then grown else set_prev grown after block)
    else blocks

-- The block is made part of a free block in front of it.
unfoldable pub join_prev : Array MemBlock → ℕ → Array MemBlock
join_prev blocks block =
    let prev = (blocks block).prev in
    if not (prev == 0) && is_free (blocks prev).free
    then (let grown = update blocks prev (record (blocks prev) {
      size = u32 ((blocks prev).size + (blocks block).size);
      next = (blocks block).next;
    }) in
        if (grown block).next == 0
        then grown
        else set_prev grown (grown block).next (grown block).prev)
    else blocks

unfoldable pub kfree : ℕ → Array MemBlock → (ptr : ℕ) → Array MemBlock
kfree header blocks ptr =
    if ptr == 0
    then blocks
    else (let block = sub32 ptr header in
        let freed = update blocks block (record (blocks block) { free = 1 }) in
        join_prev (join_next freed block) block)
