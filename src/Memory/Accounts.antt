-- ===== src/Memory/Accounts.antt =====
-- The accounts of pages and bytes.
use ea_x.Prelude.{ℕ, zero, suc, ◌+◌, ◌*◌, ◌≤◌, ◌≡◌, refl, ◌≢◌, u32, ltb, ◌==◌, if◌then◌else◌, arith}
use ea_x.Memory.{
  MemoryManager, memory_manager_init, take_page, return_page, repeat, mm_allocate_pages,
  mm_free_pages, mm_get_free_memory, mm_handle_page_fault,
}

-- Every page is free or used, and the bytes are those of the pages.
pub record IsBalanced (m : MemoryManager) : Type 0 where
  pub size : m.page_alloc.page_size ≡ 4096
  pub total : m.total_memory ≡ 16777216
  pub pages : m.page_alloc.used_pages + m.page_alloc.free_pages ≡ 4096
  pub used : m.used_memory ≡ m.page_alloc.used_pages * 4096
  pub free : m.free_memory ≡ m.page_alloc.free_pages * 4096

pub init-IsBalanced : (m : MemoryManager) → IsBalanced (memory_manager_init m)
unfolding memory_manager_init
init-IsBalanced m = omega arith

take_page-IsBalanced :
    (m : MemoryManager) → IsBalanced m → 1 ≤ m.page_alloc.free_pages → IsBalanced (take_page m)
take_page-IsBalanced m v h = omega arith

return_page-IsBalanced :
    (m : MemoryManager) → IsBalanced m → 1 ≤ m.page_alloc.used_pages → IsBalanced (return_page m)
return_page-IsBalanced m v h = omega arith

-- `n` rounds of the loop of `mm_allocate_pages`.
repeat-take :
    (n : ℕ) (m : MemoryManager)
    → IsBalanced m
    → n ≤ m.page_alloc.free_pages
    → IsBalanced (repeat n take_page m)
      × ((repeat n take_page m).page_alloc.used_pages ≡ m.page_alloc.used_pages + n)
unfolding repeat
repeat-take zero m v h = (v, omega arith)
repeat-take (suc n) m v h =
    let next = repeat-take n (take_page m) (take_page-IsBalanced m v (omega arith)) (omega arith) in
    (next.0, omega (arith, next.1))

repeat-return :
    (n : ℕ) (m : MemoryManager)
    → IsBalanced m
    → n ≤ m.page_alloc.used_pages
    → IsBalanced (repeat n return_page m)
      × ((repeat n return_page m).page_alloc.used_pages + n ≡ m.page_alloc.used_pages)
unfolding repeat
repeat-return zero m v h = (v, omega arith)
repeat-return (suc n) m v h =
    let next =
      repeat-return n (return_page m) (return_page-IsBalanced m v (omega arith)) (omega arith) in
    (next.0, omega (arith, next.1))

-- What `mm_allocate_pages` grants.
abbrev pub granted : MemoryManager → ℕ → ℕ
granted m n = if ltb m.page_alloc.free_pages n then 0 else n

-- `mm_allocate_pages` keeps balanced accounts balanced. It takes all the pages asked for, or none
-- if fewer are free, and the free memory falls by their size.
pub mm_allocate_pages-IsBalanced :
    (m : MemoryManager) (n : ℕ)
    → IsBalanced m
    → let m' = (mm_allocate_pages m n).1 in
      IsBalanced m'
      × (m'.page_alloc.used_pages ≡ m.page_alloc.used_pages + granted m n)
      × (mm_get_free_memory m' + granted m n * 4096 ≡ mm_get_free_memory m)
unfolding mm_allocate_pages mm_get_free_memory
mm_allocate_pages-IsBalanced m n v = ground (arith, repeat-take n m v)

-- `mm_free_pages` keeps balanced accounts balanced, if no more pages are returned than are used:
-- the pages used fall by as many, or not at all if the pointer is NULL.
pub mm_free_pages-IsBalanced :
    (m : MemoryManager) (ptr n : ℕ)
    → IsBalanced m
    → n ≤ m.page_alloc.used_pages
    → IsBalanced (mm_free_pages m ptr n)
      × ((mm_free_pages m ptr n).page_alloc.used_pages + (if ptr == 0 then 0 else n)
          ≡ m.page_alloc.used_pages)
unfolding mm_free_pages
mm_free_pages-IsBalanced m ptr n v h = ground (arith, repeat-return n m v h)

return-take :
    (m : MemoryManager) → IsBalanced m → 1 ≤ m.page_alloc.free_pages → return_page (take_page m) ≡ m
return-take m v h = ground arith

repeat_comm :
    (n : ℕ) (f : MemoryManager → MemoryManager) (m : MemoryManager)
    → repeat n f (f m) ≡ f (repeat n f m)
unfolding repeat
repeat_comm zero f m = refl
repeat_comm (suc n) f m = repeat_comm n f (f m)

repeat-return-take :
    (n : ℕ) (m : MemoryManager)
    → IsBalanced m
    → n ≤ m.page_alloc.free_pages
    → repeat n return_page (repeat n take_page m) ≡ m
unfolding repeat
repeat-return-take zero m v h = refl
repeat-return-take (suc n) m v h =
    let before = repeat-take n m v (omega arith) in
    rw
      (
        repeat_comm n take_page m,
        return-take (repeat n take_page m) before.0 (omega (arith, before)),
      )
      (repeat-return-take n m v (omega arith))

allocate-repeat :
    (m : MemoryManager) (n : ℕ)
    → n ≤ m.page_alloc.free_pages
    → (mm_allocate_pages m n).1 ≡ repeat n take_page m
unfolding mm_allocate_pages
allocate-repeat m zero h = unfold repeat in refl
allocate-repeat m (suc n) h = ground arith

free-repeat :
    (m : MemoryManager) (ptr n : ℕ) → ptr ≢ 0 → mm_free_pages m ptr n ≡ repeat n return_page m
unfolding mm_free_pages
free-repeat m ptr n ne = ground arith

-- With balanced accounts and enough free pages, freeing what was just allocated, by a pointer that
-- is not NULL, gives back the state from before.
mm_free_pages-allocate :
    (m : MemoryManager) (ptr n : ℕ)
    → IsBalanced m
    → n ≤ m.page_alloc.free_pages
    → ptr ≢ 0
    → mm_free_pages (mm_allocate_pages m n).1 ptr n ≡ m
mm_free_pages-allocate m ptr n v h ne =
    rw (allocate-repeat m n h, free-repeat (repeat n take_page m) ptr n ne)
      (repeat-return-take n m v h)

-- `heap_offset` is 0 and no function changes it. Then the pointer that `mm_allocate_pages` returns is
-- NULL whether or not the pages were taken, and `mm_free_pages` ignores it: they are never returned.
mm_allocate_pages-null :
    (m m' : MemoryManager) (n : ℕ)
    → m.heap_offset ≡ 0
    → let ptr = (mm_allocate_pages m n).0 in (ptr ≡ 0) × (mm_free_pages m' ptr n ≡ m')
unfolding mm_allocate_pages mm_free_pages
mm_allocate_pages-null m m' n e = ground arith

-- `mm_handle_page_fault` counts each fault, counts an eviction exactly when less than a page is free,
-- and evicts nothing: the accounts are as before.
pub mm_handle_page_fault_lem :
    (m : MemoryManager) (vaddr : ℕ)
    → IsBalanced m
    → let m' = mm_handle_page_fault m vaddr in
      IsBalanced m'
      × (m'.page_faults ≡ u32 (m.page_faults + 1))
      × (m'.page_evictions
          ≡ (if m.page_alloc.free_pages == 0 then u32 (m.page_evictions + 1) else m.page_evictions))
unfolding mm_handle_page_fault
mm_handle_page_fault_lem m vaddr v = ground arith
