-- ===== src/Memory/Paging.antt =====
-- mem.c: virtual mappings and page tables.
use ea_x.Prelude.{
  ℕ, ◌+◌, ◌*◌, Bool, ◌&&◌, Option, none, some, Array, update, u32, sub32, ltb, leb, ◌==◌,
  if◌then◌else◌, bit_and, bit_or,
}
use ea_x.Prelude.Search.{find}
use ea_x.Memory.{MemoryMapping, MemoryManager, mm_allocate_pages}

abbrev pub max_mappings : ℕ
max_mappings = 1024

-- The length of `page_tables`.
abbrev pub table_count : ℕ
table_count = 1024

abbrev pub page_present : ℕ
page_present = 0x01

abbrev pub page_accessed : ℕ
page_accessed = 0x20

abbrev pub page_dirty : ℕ
page_dirty = 0x40

abbrev pub add_mapping : MemoryManager → Array MemoryMapping → MemoryMapping → MemoryManager
add_mapping m mappings mapping = record m {
  vm = record m.vm {
    mappings = some (update mappings m.vm.mapping_count mapping);
    mapping_count = u32 (m.vm.mapping_count + 1);
    used_virtual_memory = u32 (m.vm.used_virtual_memory + mapping.size);
  };
}

-- Through NULL there is no result.
unfoldable pub mm_create_virtual_mapping :
    MemoryManager → ℕ → ℕ → ℕ → ℕ → Option (ℕ × MemoryManager)
mm_create_virtual_mapping m vaddr paddr size permissions =
    if leb max_mappings m.vm.mapping_count then some (0, m) else elim (m.vm.mappings) [
      | none ↦ none
      | some mappings ↦ some (
        1,
        add_mapping m mappings
            (record { vaddr = vaddr; paddr = paddr; size = size; permissions = permissions }),
      )
    ]

abbrev pub maps : MemoryMapping → ℕ → Bool
maps mapping vaddr = leb mapping.vaddr vaddr && ltb vaddr (u32 (mapping.vaddr + mapping.size))

abbrev pub translated : MemoryMapping → ℕ → ℕ
translated mapping vaddr = u32 (mapping.paddr + sub32 vaddr mapping.vaddr)

-- The first of `count` mappings that holds the address.
abbrev pub mapping_slot : Array MemoryMapping → ℕ → ℕ → Option ℕ
mapping_slot mappings count vaddr = find (λ i. maps (mappings i) vaddr) count

abbrev pub at_slot : Array MemoryMapping → ℕ → Option ℕ → ℕ
at_slot mappings vaddr none = 0
at_slot mappings vaddr (some i) = translated (mappings i) vaddr

unfoldable pub translate_in : Array MemoryMapping → ℕ → ℕ → ℕ
translate_in mappings count vaddr = at_slot mappings vaddr (mapping_slot mappings count vaddr)

-- With no mapping the loop is not entered, and NULL does not matter.
unfoldable pub mm_translate_virtual_to_physical : MemoryManager → ℕ → Option ℕ
mm_translate_virtual_to_physical m vaddr = elim (m.vm.mappings) [
  | none ↦ if m.vm.mapping_count == 0 then some 0 else none
  | some mappings ↦ some (translate_in mappings m.vm.mapping_count vaddr)
]

-- The address of an entry of a page table.
abbrev pub entry_address : ℕ → ℕ → ℕ
entry_address table index = u32 (table + 4 * index)

unfoldable pub mm_get_page_table_entry : MemoryManager → ℕ → ℕ → Option ℕ
mm_get_page_table_entry m dir index =
    if leb table_count dir
    then none
    else if m.vm.page_tables dir == 0
    then some 0
    else some (m.ram (entry_address (m.vm.page_tables dir) index))

-- The first half of `mm_set_page_table_entry`: a missing table is allocated.
unfoldable pub ensure_table : MemoryManager → ℕ → MemoryManager
ensure_table m dir =
    if m.vm.page_tables dir == 0
    then (let (ptr, m') = mm_allocate_pages m 1 in
        record m' { vm = record m'.vm { page_tables = update m'.vm.page_tables dir ptr } })
    else m

unfoldable pub mm_set_page_table_entry : MemoryManager → ℕ → ℕ → ℕ → Option MemoryManager
mm_set_page_table_entry m dir index entry =
    if leb table_count dir
    then none
    else (let m' = ensure_table m dir in
        if m'.vm.page_tables dir == 0
        then none
        else some
            (record m' { ram = update m'.ram (entry_address (m'.vm.page_tables dir) index) entry }))

unfoldable pub mm_is_page_present : MemoryManager → ℕ → ℕ → Option ℕ
mm_is_page_present m dir index = elim (mm_get_page_table_entry m dir index) [
  | none ↦ none
  | some entry ↦ some (bit_and entry page_present)
]

-- The two marking functions, which differ in the flag.
unfoldable pub mark_page : ℕ → MemoryManager → ℕ → ℕ → Option MemoryManager
mark_page flag m dir index = elim (mm_get_page_table_entry m dir index) [
  | none ↦ none
  | some entry ↦ mm_set_page_table_entry m dir index (bit_or entry flag)
]

unfoldable pub mm_mark_page_accessed : MemoryManager → ℕ → ℕ → Option MemoryManager
unfolding mark_page
mm_mark_page_accessed m dir index = mark_page page_accessed m dir index

unfoldable pub mm_mark_page_dirty : MemoryManager → ℕ → ℕ → Option MemoryManager
unfolding mark_page
mm_mark_page_dirty m dir index = mark_page page_dirty m dir index

unfoldable pub mm_enable_virtual_memory : MemoryManager → MemoryManager
mm_enable_virtual_memory m =
    let (ptr, m') = mm_allocate_pages m 1 in
    record m' { vm = record m'.vm { page_directory = ptr } }

unfoldable pub mm_disable_virtual_memory : MemoryManager → MemoryManager
mm_disable_virtual_memory m = record m { vm = record m.vm { page_directory = 0 } }
