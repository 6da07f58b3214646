-- ===== src/Memory/Tests.antt =====
-- mem.c at concrete inputs.
use ea_x.Prelude.{ℕ, ◌+◌, ◌≡◌, refl, none, some, List, [], ◌∷◌, leb, if◌then◌else◌, arith}
use ea_x.Memory.{
  MemoryManager, memory_manager_init, mm_get_free_memory, mm_get_used_memory, mm_handle_page_fault,
}
use ea_x.Memory.Paging.{
  mm_create_virtual_mapping, mm_translate_virtual_to_physical, mm_get_page_table_entry,
  mm_set_page_table_entry, table_count,
}
use ea_x.Memory.Accounts.{IsBalanced, init-IsBalanced}
use ea_x.Memory.Swap.{SwapIsValid}
use ea_x.Memory.Unbacked.{
  Op, allocate_pages, free_pages, enable, page_fault, run, step, IsUnbacked, run-unbacked,
}
use ea_x.Memory.Pages.{in_use, all_in_use, AllFair, run-all_in_use}

-- The static variables before any call.
abbrev zeroed : MemoryManager
zeroed = record {
  total_memory = 0;
  used_memory = 0;
  free_memory = 0;
  swap_size = 0;
  swap_used = 0;
  page_faults = 0;
  page_evictions = 0;
  page_alloc = record { pages = 0; page_count = 0; free_pages = 0; used_pages = 0; page_size = 0 };
  vm = record {
    mappings = none;
    mapping_count = 0;
    total_virtual_memory = 0;
    used_virtual_memory = 0;
    page_directory = 0;
    page_tables = λ i. 0;
  };
  heap_offset = 0;
  ram = λ i. 0;
}

abbrev booted : MemoryManager
booted = memory_manager_init zeroed

booted-IsBalanced : IsBalanced booted
booted-IsBalanced = init-IsBalanced zeroed

-- Two pages, one for the page directory, a request for more than are left, and a page given back.
abbrev pages_calls : List Op
pages_calls =
    allocate_pages 2 ∷ enable ∷ allocate_pages 5000 ∷ page_fault 0 ∷ free_pages 4096 1 ∷ []

run-all_in_use_example :
    (m' : MemoryManager) × (run booted pages_calls ≡ some m')
    × IsBalanced m'
    × (m'.page_alloc.used_pages ≡ 2)
    × (mm_get_used_memory m' ≡ 8192)
    × (mm_get_free_memory m' + mm_get_used_memory m' ≡ 16777216)
unfolding memory_manager_init all_in_use in_use
run-all_in_use_example =
    run-all_in_use pages_calls booted (unfold AllFair in omega arith) booted-IsBalanced

-- Half of the swap space is used.
abbrev swapping : MemoryManager
swapping = record zeroed { swap_size = 4194304; swap_used = 2097152 }

swapping-SwapIsValid : SwapIsValid swapping
swapping-SwapIsValid = record { within = omega arith; small = omega arith }

booted-IsUnbacked : IsUnbacked booted
unfolding memory_manager_init
booted-IsUnbacked = record { offset = refl; mappings = refl; count = refl; tables = λ dir. refl }

abbrev faulted : MemoryManager
faulted = mm_handle_page_fault booted 0

ran : run booted (page_fault 0 ∷ []) ≡ some faulted
unfolding run step
ran = refl

run-unbacked_example :
    ((vaddr : ℕ) → mm_translate_virtual_to_physical faulted vaddr ≡ some 0)
    × ((dir index : ℕ)
        → mm_get_page_table_entry faulted dir index
          ≡ (if leb table_count dir then none else some 0))
    × ((vaddr paddr size permissions : ℕ)
        → mm_create_virtual_mapping faulted vaddr paddr size permissions ≡ none)
    × ((dir index entry : ℕ) → mm_set_page_table_entry faulted dir index entry ≡ none)
run-unbacked_example = run-unbacked (page_fault 0 ∷ []) booted faulted booted-IsUnbacked ran
