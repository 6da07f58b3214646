-- ===== src/Memory/Pages.antt =====
-- The pages in use after any calls.
use ea_x.Prelude.{
  ℕ, ◌+◌, ◌-◌, ◌*◌, ◌≤◌, ◌≡◌, refl, ap, ◌∙◌, ◌⊎◌, inl, inr, some, List, [], ◌∷◌, leb, ◌==◌,
  if◌then◌else◌, arith, Bool-cases,
}
use ea_x.Memory.{
  MemoryManager, mm_allocate_pages, mm_free_pages, mm_handle_page_fault, mm_get_free_memory,
  mm_get_used_memory,
}
use ea_x.Memory.Paging.{mm_enable_virtual_memory, mm_disable_virtual_memory}
use ea_x.Memory.Swap.{mm_set_swap_used, mm_allocate_swap_space, mm_free_swap_space}
use ea_x.Memory.Accounts.{IsBalanced, mm_allocate_pages-IsBalanced, mm_free_pages-IsBalanced}
use ea_x.Memory.Unbacked.{
  Op, allocate_pages, free_pages, page_fault, create_mapping, set_entry, mark_accessed, mark_dirty,
  enable, disable, set_swap_used, allocate_swap, free_swap, step, run,
}

-- The pages in use after a call, of 4096, from those before it.
unfoldable pub in_use : ℕ → Op → ℕ
in_use n (allocate_pages page_count) = if leb (n + page_count) 4096 then n + page_count else n
in_use n (free_pages ptr page_count) = if ptr == 0 then n else n - page_count
in_use n enable = if leb (n + 1) 4096 then n + 1 else n
in_use n _ = n

unfoldable pub all_in_use : ℕ → List Op → ℕ
all_in_use n [] = n
all_in_use n (op ∷ ops) = all_in_use (in_use n op) ops

-- No call through a page table or an array of mappings, and no more pages are freed than are in use.
abbrev pub IsFair : ℕ → Op → Type 0
IsFair n (free_pages ptr page_count) = (ptr ≡ 0) ⊎ (page_count ≤ n)
IsFair n (create_mapping vaddr paddr size permissions) = ⊥
IsFair n (set_entry dir index entry) = ⊥
IsFair n (mark_accessed dir index) = ⊥
IsFair n (mark_dirty dir index) = ⊥
IsFair n _ = Unit {0}

unfoldable pub AllFair : ℕ → List Op → Type 0
AllFair n [] = Unit {0}
AllFair n (op ∷ ops) = IsFair n op × AllFair (in_use n op) ops

-- The accounts, and the pages in use.
abbrev Has : MemoryManager → ℕ → Type 0
Has m n = IsBalanced m × (m.page_alloc.used_pages ≡ n)

Has-same :
    (m m' : MemoryManager)
    → m'.page_alloc ≡ m.page_alloc
    → (m'.total_memory ≡ m.total_memory)
      × (m'.used_memory ≡ m.used_memory)
      × (m'.free_memory ≡ m.free_memory)
    → IsBalanced m
    → Has m' m.page_alloc.used_pages
Has-same m m' pages (total, used, free) v = (
  rw (pages, total, used, free)
      (record { size = v.size; total = v.total; pages = v.pages; used = v.used; free = v.free }),
  ap (λ p. p.used_pages) pages,
)

allocate-Has :
    (m : MemoryManager) (n : ℕ)
    → IsBalanced m
    → Has (mm_allocate_pages m n).1 (in_use m.page_alloc.used_pages (allocate_pages n))
unfolding in_use
allocate-Has m n v = let (v', used, free) = mm_allocate_pages-IsBalanced m n v in (v', ground arith)

free-Has :
    (m : MemoryManager) (ptr n : ℕ)
    → (ptr ≡ 0) ⊎ (n ≤ m.page_alloc.used_pages)
    → IsBalanced m
    → Has (mm_free_pages m ptr n) (in_use m.page_alloc.used_pages (free_pages ptr n))
unfolding in_use
free-Has m ptr n fair v = elim (Bool-cases (ptr == 0)) [
  | inl null ↦ rw null (unfold mm_free_pages in rw null (v, refl))
  | inr some_ptr ↦
      let few : n ≤ m.page_alloc.used_pages = ground arith in
      let (v', used) = mm_free_pages-IsBalanced m ptr n v few in rw some_ptr (v', ground arith)
]

step-Has :
    (op : Op) (m : MemoryManager)
    → IsFair m.page_alloc.used_pages op
    → IsBalanced m
    → (m' : MemoryManager) × (step m op ≡ some m') × Has m' (in_use m.page_alloc.used_pages op)
unfolding step in_use mm_enable_virtual_memory mm_disable_virtual_memory
step-Has (allocate_pages n) m fair v = ((mm_allocate_pages m n).1, refl, allocate-Has m n v)
step-Has (free_pages ptr n) m fair v = (mm_free_pages m ptr n, refl, free-Has m ptr n fair v)
step-Has (page_fault vaddr) m fair v = (
  mm_handle_page_fault m vaddr,
  refl,
  Has-same m (mm_handle_page_fault m vaddr) (unfold mm_handle_page_fault in ground arith)
      (unfold mm_handle_page_fault in ground arith) v,
)
step-Has (create_mapping vaddr paddr size permissions) m fair v = absurd fair
step-Has (set_entry dir index entry) m fair v = absurd fair
step-Has (mark_accessed dir index) m fair v = absurd fair
step-Has (mark_dirty dir index) m fair v = absurd fair
step-Has enable m fair v =
    let (v', used) = allocate-Has m 1 v in
    let m' = mm_enable_virtual_memory m in
    let (v2, same) = Has-same (mm_allocate_pages m 1).1 m' refl (refl, refl, refl) v' in
    (m', refl, (v2, same ∙ used))
step-Has disable m fair v = (
  mm_disable_virtual_memory m,
  refl,
  Has-same m (mm_disable_virtual_memory m) refl (refl, refl, refl) v,
)
step-Has (set_swap_used amount) m fair v = (
  mm_set_swap_used m amount,
  refl,
  Has-same m (mm_set_swap_used m amount) (unfold mm_set_swap_used in ground arith)
      (unfold mm_set_swap_used in ground arith) v,
)
step-Has (allocate_swap size) m fair v = (
  (mm_allocate_swap_space m size).1,
  refl,
  Has-same m (mm_allocate_swap_space m size).1 (unfold mm_allocate_swap_space in ground arith)
      (unfold mm_allocate_swap_space in ground arith) v,
)
step-Has (free_swap address size) m fair v = (
  mm_free_swap_space m address size,
  refl,
  Has-same m (mm_free_swap_space m address size) (unfold mm_free_swap_space in ground arith)
      (unfold mm_free_swap_space in ground arith) v,
)

run-Has :
    (ops : List Op) (m : MemoryManager)
    → AllFair m.page_alloc.used_pages ops
    → IsBalanced m
    → (m' : MemoryManager) × (run m ops ≡ some m') × Has m' (all_in_use m.page_alloc.used_pages ops)
unfolding run AllFair all_in_use
run-Has [] m fair v = (m, refl, (v, refl))
run-Has (op ∷ ops) m (fair, all_fair) v =
    let (m1, ran1, (v1, used1)) = step-Has op m fair v in
    let (m', ran, (v', used)) = run-Has ops m1 (rw used1 all_fair) v1 in
    (m', rw (ran1, run) ran, (v', used ∙ ap (λ n. all_in_use n ops) used1))

-- From balanced accounts, every sequence of calls runs to its end and leaves the accounts balanced,
-- as long as no more pages are freed than are in use, and no call goes through a page table or the array
-- of mappings, which are never given. The pages in use, of 4096, are then those that have been granted,
-- and a page for each time that virtual memory was enabled, less those freed, where a request for more
-- than are left takes none; `mm_get_used_memory` gives 4096 bytes for each, and `mm_get_free_memory`
-- 4096 for each of the others.
pub run-all_in_use :
    (ops : List Op) (m : MemoryManager)
    → AllFair m.page_alloc.used_pages ops
    → IsBalanced m
    → (m' : MemoryManager) × (run m ops ≡ some m')
      × IsBalanced m'
      × (m'.page_alloc.used_pages ≡ all_in_use m.page_alloc.used_pages ops)
      × (mm_get_used_memory m' ≡ all_in_use m.page_alloc.used_pages ops * 4096)
      × (mm_get_free_memory m' + mm_get_used_memory m' ≡ 16777216)
unfolding mm_get_used_memory mm_get_free_memory
run-all_in_use ops m fair v =
    let (m', ran, (v', used)) = run-Has ops m fair v in
    (m', ran, v', used, omega arith, omega arith)
