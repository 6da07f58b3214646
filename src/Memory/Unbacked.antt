-- ===== src/Memory/Unbacked.antt =====
-- Nothing ever gives the manager an array of mappings or a page table.
use ea_x.Prelude.{
  ℕ, zero, suc, ◌≡◌, refl, ◌∙◌, Option, none, some, List, [], ◌∷◌, leb, ◌==◌, if◌then◌else◌, arith,
  bit_or, Option-cases, Bool-cases, inl, inr,
}
use ea_x.Memory.{
  MemoryManager, take_page, return_page, repeat, mm_allocate_pages, mm_free_pages,
  mm_handle_page_fault,
}
use ea_x.Memory.Paging.{
  mm_create_virtual_mapping, mm_translate_virtual_to_physical, mm_get_page_table_entry,
  mm_set_page_table_entry, mm_mark_page_accessed, mm_mark_page_dirty, mm_enable_virtual_memory,
  mm_disable_virtual_memory, table_count, ensure_table, mark_page,
}
use ea_x.Memory.Swap.{mm_set_swap_used, mm_allocate_swap_space, mm_free_swap_space}

-- The calls that change the state, with their arguments.
pub data Op : Type 0 where
  allocate_pages : (page_count : ℕ) → Op
  free_pages : (ptr page_count : ℕ) → Op
  page_fault : (vaddr : ℕ) → Op
  create_mapping : (vaddr paddr size permissions : ℕ) → Op
  set_entry : (dir index entry : ℕ) → Op
  mark_accessed : (dir index : ℕ) → Op
  mark_dirty : (dir index : ℕ) → Op
  enable disable : Op
  set_swap_used : (amount : ℕ) → Op
  allocate_swap : (size : ℕ) → Op
  free_swap : (address size : ℕ) → Op

abbrev pub state_of : Option (ℕ × MemoryManager) → Option MemoryManager
state_of none = none
state_of (some (r, m)) = some m

-- `none` where the call is undefined.
unfoldable pub step : MemoryManager → Op → Option MemoryManager
step m (allocate_pages n) = some (mm_allocate_pages m n).1
step m (free_pages ptr n) = some (mm_free_pages m ptr n)
step m (page_fault vaddr) = some (mm_handle_page_fault m vaddr)
step m (create_mapping vaddr paddr size permissions) =
    state_of (mm_create_virtual_mapping m vaddr paddr size permissions)
step m (set_entry dir index entry) = mm_set_page_table_entry m dir index entry
step m (mark_accessed dir index) = mm_mark_page_accessed m dir index
step m (mark_dirty dir index) = mm_mark_page_dirty m dir index
step m enable = some (mm_enable_virtual_memory m)
step m disable = some (mm_disable_virtual_memory m)
step m (set_swap_used amount) = some (mm_set_swap_used m amount)
step m (allocate_swap size) = some (mm_allocate_swap_space m size).1
step m (free_swap address size) = some (mm_free_swap_space m address size)

unfoldable pub run : MemoryManager → List Op → Option MemoryManager
unfolding step
run m [] = some m
run m (op ∷ ops) = elim (step m op) [ none ↦ none | some m' ↦ run m' ops ]

-- No array of mappings, no mapping, no page table, and pages that come at address 0.
pub record IsUnbacked (m : MemoryManager) : Type 0 where
  pub offset : m.heap_offset ≡ 0
  pub mappings : m.vm.mappings ≡ none
  pub count : m.vm.mapping_count ≡ 0
  pub tables : (dir : ℕ) → m.vm.page_tables dir ≡ 0

repeat-vm :
    (n : ℕ) (body : MemoryManager → MemoryManager) (m : MemoryManager)
    → ((x : MemoryManager) → ((body x).vm ≡ x.vm) × ((body x).heap_offset ≡ x.heap_offset))
    → ((repeat n body m).vm ≡ m.vm) × ((repeat n body m).heap_offset ≡ m.heap_offset)
unfolding repeat
repeat-vm zero body m same = (refl, refl)
repeat-vm (suc n) body m same =
    let rest = repeat-vm n body (body m) same in (rest.0 ∙ (same m).0, rest.1 ∙ (same m).1)

allocate-vm :
    (m : MemoryManager) (n : ℕ)
    → ((mm_allocate_pages m n).1.vm ≡ m.vm)
      × ((mm_allocate_pages m n).1.heap_offset ≡ m.heap_offset)
unfolding mm_allocate_pages
allocate-vm m n = ground (arith, repeat-vm n take_page m (λ x. (refl, refl)))

allocate-null : (m : MemoryManager) (n : ℕ) → m.heap_offset ≡ 0 → (mm_allocate_pages m n).0 ≡ 0
unfolding mm_allocate_pages
allocate-null m n e = ground arith

module _ {m : MemoryManager} (v : IsUnbacked m) where
  ensure-zero : (dir : ℕ) → (ensure_table m dir).vm.page_tables dir ≡ 0
  unfolding ensure_table
  ensure-zero dir = ground (arith, v.tables dir, allocate-null m 1 v.offset)

  set-none : (dir index entry : ℕ) → mm_set_page_table_entry m dir index entry ≡ none
  unfolding mm_set_page_table_entry
  set-none dir index entry = ground (arith, ensure-zero dir)

  create-none :
      (vaddr paddr size permissions : ℕ)
      → mm_create_virtual_mapping m vaddr paddr size permissions ≡ none
  unfolding mm_create_virtual_mapping
  create-none vaddr paddr size permissions = ground (arith, v.mappings, v.count)

  mark-none : (flag dir index : ℕ) → mark_page flag m dir index ≡ none
  unfolding mark_page mm_get_page_table_entry
  mark-none flag dir index = ground (arith, v.tables dir, set-none dir index (bit_or 0 flag))

  IsUnbacked-vm :
      (m' : MemoryManager)
      → (m'.vm.mappings ≡ m.vm.mappings)
        × (m'.vm.mapping_count ≡ m.vm.mapping_count)
        × (m'.vm.page_tables ≡ m.vm.page_tables)
        × (m'.heap_offset ≡ m.heap_offset)
      → IsUnbacked m'
  IsUnbacked-vm m' (mappings, count, tables, offset) = record {
    offset = offset ∙ v.offset;
    mappings = mappings ∙ v.mappings;
    count = count ∙ v.count;
    tables = λ dir. rw tables (v.tables dir);
  }

  allocate-IsUnbacked : (n : ℕ) → IsUnbacked (mm_allocate_pages m n).1
  allocate-IsUnbacked n =
      let (vm, offset) = allocate-vm m n in
      IsUnbacked-vm (mm_allocate_pages m n).1 (rw vm (refl, refl, refl, offset))

  free-IsUnbacked : (ptr n : ℕ) → IsUnbacked (mm_free_pages m ptr n)
  unfolding mm_free_pages
  free-IsUnbacked ptr n =
      let (vm, offset) = repeat-vm n return_page m (λ x. (refl, refl)) in
      elim (Bool-cases (ptr == 0)) [
        | inl null ↦ rw null v
        | inr some_ptr ↦
            rw some_ptr (IsUnbacked-vm (repeat n return_page m) (rw vm (refl, refl, refl, offset)))
      ]

-- A call that has a result leaves the manager without them.
abbrev pub Stays : Option MemoryManager → Type 0
Stays none = Unit {0}
Stays (some m') = IsUnbacked m'

step-Stays : (m : MemoryManager) (op : Op) → IsUnbacked m → Stays (step m op)
unfolding step mm_mark_page_accessed mm_mark_page_dirty mm_enable_virtual_memory
    mm_disable_virtual_memory
step-Stays m (allocate_pages n) v = allocate-IsUnbacked v n
step-Stays m (free_pages ptr n) v = free-IsUnbacked v ptr n
step-Stays m (page_fault vaddr) v =
    IsUnbacked-vm v (mm_handle_page_fault m vaddr) (unfold mm_handle_page_fault in ground arith)
step-Stays m (create_mapping vaddr paddr size permissions) v =
    rw (create-none v vaddr paddr size permissions, state_of) tt
step-Stays m (set_entry dir index entry) v = rw (set-none v dir index entry) tt
step-Stays m (mark_accessed dir index) v = rw (mark-none v 0x20 dir index) tt
step-Stays m (mark_dirty dir index) v = rw (mark-none v 0x40 dir index) tt
step-Stays m enable v =
    let after = allocate-IsUnbacked v 1 in IsUnbacked-vm after _ (refl, refl, refl, refl)
step-Stays m disable v = IsUnbacked-vm v _ (refl, refl, refl, refl)
step-Stays m (set_swap_used amount) v =
    IsUnbacked-vm v (mm_set_swap_used m amount) (unfold mm_set_swap_used in ground arith)
step-Stays m (allocate_swap size) v =
    IsUnbacked-vm v (mm_allocate_swap_space m size).1
      (unfold mm_allocate_swap_space in ground arith)
step-Stays m (free_swap address size) v =
    IsUnbacked-vm v (mm_free_swap_space m address size) (unfold mm_free_swap_space in ground arith)

run-Stays : (ops : List Op) (m : MemoryManager) → IsUnbacked m → Stays (run m ops)
unfolding run
run-Stays [] m v = v
run-Stays (op ∷ ops) m v = elim (Option-cases (step m op)) [
  | inl e ↦ rw (e, run) tt
  | inr (m', e) ↦ rw (e, run) (run-Stays ops m' (rw e at (step-Stays m op v)))
]

-- The statics start as zeros and no function assigns the array of mappings or `heap_offset`. From a
-- state with no array, no mapping, no page table and `heap_offset` 0, after any calls that had a
-- result: every translation gives 0, every entry of a page table reads 0, and neither a mapping nor
-- an entry can be added, since either call goes through NULL.
pub run-unbacked :
    (ops : List Op) (m m' : MemoryManager)
    → IsUnbacked m
    → run m ops ≡ some m'
    → ((vaddr : ℕ) → mm_translate_virtual_to_physical m' vaddr ≡ some 0)
      × ((dir index : ℕ)
          → mm_get_page_table_entry m' dir index ≡ (if leb table_count dir then none else some 0))
      × ((vaddr paddr size permissions : ℕ)
          → mm_create_virtual_mapping m' vaddr paddr size permissions ≡ none)
      × ((dir index entry : ℕ) → mm_set_page_table_entry m' dir index entry ≡ none)
unfolding mm_translate_virtual_to_physical mm_get_page_table_entry
run-unbacked ops m m' v e =
    let after : IsUnbacked m' = rw e at (run-Stays ops m v) in
    (
      λ vaddr. ground (arith, after.mappings, after.count),
      (λ dir index. ground (arith, after.tables dir)),
      create-none after,
      set-none after,
    )
