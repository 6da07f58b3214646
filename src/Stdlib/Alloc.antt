-- ===== src/Stdlib/Alloc.antt =====
-- stdlib.c: malloc, free, calloc and realloc.
--
-- The two statics of `malloc` and the memory are one state. Blocks are taken from one array in order, and
-- are never given back.
pub mod Blocks
pub mod Contents
use ea_x.Prelude.{ℕ, ◌+◌, ◌*◌, Array, u32, ltb, ◌==◌, if◌then◌else◌}
use ea_x.Stdlib.Blocks.{memcpy, memset}

abbrev pub heap_size : ℕ
heap_size = 16777216

pub record Heap : Type 0 where
  -- the address of the array `heap`
  pub heap : ℕ
  pub heap_used : ℕ
  pub ram : Array ℕ

-- The pointer returned, and the new state.
unfoldable pub malloc : Heap → ℕ → ℕ × Heap
malloc h size =
    if size == 0
    then (0, h)
    else if ltb heap_size (u32 (h.heap_used + size))
    then (0, h)
    else (h.heap + h.heap_used, record h { heap_used = u32 (h.heap_used + size) })

unfoldable pub free : Heap → ℕ → Heap
free h ptr = h

unfoldable pub calloc : Heap → ℕ → ℕ → ℕ × Heap
calloc h nmemb size =
    let total = u32 (nmemb * size) in
    let (ptr, h') = malloc h total in
    if ptr == 0 then (ptr, h') else (ptr, record h' { ram = (memset h'.ram ptr 0 total).1 })

unfoldable pub realloc : Heap → ℕ → ℕ → ℕ × Heap
realloc h ptr size =
    if ptr == 0
    then malloc h size
    else if size == 0
    then (0, free h ptr)
    else (let (new_ptr, h') = malloc h size in
        if new_ptr == 0
        then (new_ptr, h')
        else (new_ptr, record h' { ram = (memcpy h'.ram new_ptr ptr size).1 }))
