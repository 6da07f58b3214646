-- ===== src/Memory.antt =====
-- mem.c: the accounts of pages, virtual mappings, page tables and swap.
--
-- A pointer is an address, and NULL is 0. `ram` holds the 32-bit words that page tables point to, by
-- their address, which C wants to be a multiple of 4. The array of mappings is behind a pointer too:
-- `none` is NULL. An access through NULL, or beyond `page_tables`, is undefined in C: the operation then
-- has no result, `none`.
pub mod Paging
pub mod Swap
pub mod Accounts
pub mod Translation
pub mod Tables
pub mod Unbacked
pub mod Pages
mod Tests
use ea_x.Prelude.{
  ℕ, zero, suc, ◌+◌, ◌-◌, ◌*◌, ◌/◌, ◌≡◌, Bool, ◌&&◌, ◌||◌, Option, none, some, List, [], ◌∷◌, Array,
  update, u32, sub32, ltb, leb, ◌==◌, if◌then◌else◌,
}
use ea_x.Prelude.Search.{find}

pub record PageAllocator : Type 0 where
  pub pages : ℕ
  pub page_count : ℕ
  pub free_pages : ℕ
  pub used_pages : ℕ
  pub page_size : ℕ

pub record MemoryMapping : Type 0 where
  pub vaddr : ℕ
  pub paddr : ℕ
  pub size : ℕ
  pub permissions : ℕ

pub record VirtualMemory : Type 0 where
  pub mappings : Option (Array MemoryMapping)
  pub mapping_count : ℕ
  pub total_virtual_memory : ℕ
  pub used_virtual_memory : ℕ
  pub page_directory : ℕ
  pub page_tables : Array ℕ

pub record MemoryManager : Type 0 where
  pub total_memory : ℕ
  pub used_memory : ℕ
  pub free_memory : ℕ
  pub swap_size : ℕ
  pub swap_used : ℕ
  pub page_faults : ℕ
  pub page_evictions : ℕ
  pub page_alloc : PageAllocator
  pub vm : VirtualMemory
  -- the file's other static variable
  pub heap_offset : ℕ
  pub ram : Array ℕ

unfoldable pub memory_manager_init : MemoryManager → MemoryManager
memory_manager_init m = record m {
  total_memory = 16777216;
  free_memory = 16777216;
  used_memory = 0;
  swap_size = 4194304;
  swap_used = 0;
  page_faults = 0;
  page_evictions = 0;
  page_alloc = record m.page_alloc {
    page_size = 4096;
    page_count = 16777216 / 4096;
    free_pages = 16777216 / 4096;
    used_pages = 0;
  };
  vm = record m.vm {
    total_virtual_memory = u32 4294967296;
    used_virtual_memory = 0;
    mapping_count = 0;
  };
}

-- One round of the loop of `mm_allocate_pages`, and of that of `mm_free_pages`.
abbrev pub take_page : MemoryManager → MemoryManager
take_page m = record m {
  page_alloc = record m.page_alloc {
    used_pages = u32 (m.page_alloc.used_pages + 1);
    free_pages = sub32 m.page_alloc.free_pages 1;
  };
  used_memory = u32 (m.used_memory + m.page_alloc.page_size);
  free_memory = sub32 m.free_memory m.page_alloc.page_size;
}

abbrev pub return_page : MemoryManager → MemoryManager
return_page m = record m {
  page_alloc = record m.page_alloc {
    used_pages = sub32 m.page_alloc.used_pages 1;
    free_pages = u32 (m.page_alloc.free_pages + 1);
  };
  used_memory = sub32 m.used_memory m.page_alloc.page_size;
  free_memory = u32 (m.free_memory + m.page_alloc.page_size);
}

unfoldable pub repeat : ℕ → (MemoryManager → MemoryManager) → MemoryManager → MemoryManager
repeat zero body m = m
repeat (suc n) body m = repeat n body (body m)

-- The pointer returned, and the new state.
unfoldable pub mm_allocate_pages : MemoryManager → ℕ → ℕ × MemoryManager
mm_allocate_pages m page_count =
    if (page_count == 0) || ltb m.page_alloc.free_pages page_count
    then (0, m)
    else (u32 (m.heap_offset * m.page_alloc.page_size), repeat page_count take_page m)

unfoldable pub mm_free_pages : MemoryManager → ℕ → ℕ → MemoryManager
mm_free_pages m ptr page_count = if ptr == 0 then m else repeat page_count return_page m

unfoldable pub mm_get_free_memory : MemoryManager → ℕ
mm_get_free_memory m = m.free_memory

unfoldable pub mm_get_used_memory : MemoryManager → ℕ
mm_get_used_memory m = m.used_memory

unfoldable pub mm_handle_page_fault : MemoryManager → ℕ → MemoryManager
mm_handle_page_fault m vaddr =
    let m' = record m { page_faults = u32 (m.page_faults + 1) } in
    if ltb m.free_memory m.page_alloc.page_size
    then record m' { page_evictions = u32 (m.page_evictions + 1) }
    else m'

-- The words that `mm_get_memory_stats` writes; it returns their size, 20.
unfoldable pub mm_get_memory_stats : MemoryManager → ℕ × List ℕ
mm_get_memory_stats m =
    (20, m.total_memory ∷ m.used_memory ∷ m.free_memory ∷ m.page_faults ∷ m.page_evictions ∷ [])
