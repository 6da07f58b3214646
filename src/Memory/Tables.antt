-- ===== src/Memory/Tables.antt =====
-- Entries of page tables that exist.
use ea_x.Prelude.{
  ℕ, ◌^◌, ◌<◌, ◌≡◌, ◌≢◌, none, some, update, leb, ◌==◌, if◌then◌else◌, bit_and, bit_or, arith,
}
use ea_x.Prelude.Bits.{bit, bit-bit_or, bit-pow, bit-le, bit_and-pow}
use ea_x.Memory.{MemoryManager}
use ea_x.Memory.Paging.{
  mm_get_page_table_entry, mm_set_page_table_entry, mm_is_page_present, mark_page,
  mm_mark_page_accessed, mm_mark_page_dirty, ensure_table, table_count, entry_address, page_present,
}

-- The state after a write to an entry of a table that exists.
abbrev pub written : MemoryManager → ℕ → ℕ → ℕ → MemoryManager
written m dir index entry = record m {
  ram = update m.ram (entry_address (m.vm.page_tables dir) index) entry;
}

ensure-same : (m : MemoryManager) (dir : ℕ) → m.vm.page_tables dir ≢ 0 → ensure_table m dir ≡ m
unfolding ensure_table
ensure-same m dir ne = ground arith

pub set-written :
    (m : MemoryManager) (dir index entry : ℕ)
    → dir < table_count
    → m.vm.page_tables dir ≢ 0
    → mm_set_page_table_entry m dir index entry ≡ some (written m dir index entry)
unfolding mm_set_page_table_entry
set-written m dir index entry h ne = rw (ensure-same m dir ne) (ground arith)

-- Where the table exists, among the 1024, a write to an entry is seen by every read of the same
-- address and by no other read, whichever table it goes through.
mm_get_page_table_entry-set :
    (m : MemoryManager) (dir index entry : ℕ)
    → dir < table_count
    → m.vm.page_tables dir ≢ 0
    → (m' : MemoryManager) × (mm_set_page_table_entry m dir index entry ≡ some m')
      × ((dir' index' : ℕ)
          → mm_get_page_table_entry m' dir' index' ≡ (
              if leb table_count dir'
              then none
              else if m.vm.page_tables dir' == 0
              then some 0
              else if entry_address (m.vm.page_tables dir) index
                  == entry_address (m.vm.page_tables dir') index'
              then some entry
              else some (m.ram (entry_address (m.vm.page_tables dir') index'))))
unfolding mm_get_page_table_entry
mm_get_page_table_entry-set m dir index entry h ne =
    (written m dir index entry, set-written m dir index entry h ne, λ dir' index'. ground arith)

get-some :
    (m : MemoryManager) (dir index : ℕ)
    → dir < table_count
    → m.vm.page_tables dir ≢ 0
    → mm_get_page_table_entry m dir index
      ≡ some (m.ram (entry_address (m.vm.page_tables dir) index))
unfolding mm_get_page_table_entry
get-some m dir index h ne = ground arith

mark-written :
    (flag : ℕ) (m : MemoryManager) (dir index : ℕ)
    → dir < table_count
    → m.vm.page_tables dir ≢ 0
    → mark_page flag m dir index
      ≡ some
          (written m dir index (bit_or (m.ram (entry_address (m.vm.page_tables dir) index)) flag))
unfolding mark_page
mark-written flag m dir index h ne =
    rw (get-some m dir index h ne, mark_page) (set-written m dir index _ h ne)

present-bit : (entry : ℕ) → bit_and entry page_present ≡ bit entry 0
present-bit entry = omega (arith, bit_and-pow entry 0)

-- `m'` has the flag of bit `k` set in an entry, the other bits of the entry and all other words as
-- `m` has them, and the page is present in both or in neither.
abbrev pub Marks : ℕ → MemoryManager → MemoryManager → ℕ → ℕ → Type 0
Marks k m m' dir index =
    let address = entry_address (m.vm.page_tables dir) index in
    ((j : ℕ) → bit (m'.ram address) j ≡ (if k == j then 1 else bit (m.ram address) j))
    × ((a : ℕ) → m'.ram a ≡ (if a == address then m'.ram address else m.ram a))
    × (mm_is_page_present m' dir index ≡ mm_is_page_present m dir index)

mark-Marks :
    (k : ℕ) (m : MemoryManager) (dir index : ℕ)
    → 0 < k
    → dir < table_count
    → m.vm.page_tables dir ≢ 0
    → (m' : MemoryManager) × (mark_page (2 ^ k) m dir index ≡ some m') × Marks k m m' dir index
unfolding mm_is_page_present mm_get_page_table_entry
mark-Marks k m dir index pos h ne =
    let entry = m.ram (entry_address (m.vm.page_tables dir) index) in
    (
      written m dir index (bit_or entry (2 ^ k)),
      mark-written (2 ^ k) m dir index h ne,
      (
        (λ j. ground (arith, bit-bit_or entry (2 ^ k) j, bit-pow k j, bit-le entry j)),
        (λ a. ground arith),
        ground (
          arith,
          bit-bit_or entry (2 ^ k) 0,
          bit-pow k 0,
          present-bit entry,
          present-bit (bit_or entry (2 ^ k)),
        ),
      ),
    )

-- On a table that exists, among the 1024, `mm_mark_page_accessed` sets bit 5 of the entry and
-- `mm_mark_page_dirty` sets bit 6, and neither changes another bit, another word, or whether the
-- page is present.
mm_mark_page-Marks :
    (m : MemoryManager) (dir index : ℕ)
    → dir < table_count
    → m.vm.page_tables dir ≢ 0
    → ((m' : MemoryManager) × (mm_mark_page_accessed m dir index ≡ some m')
        × Marks 5 m m' dir index)
      × ((m' : MemoryManager) × (mm_mark_page_dirty m dir index ≡ some m') × Marks 6 m m' dir index)
unfolding mm_mark_page_accessed mm_mark_page_dirty
mm_mark_page-Marks m dir index h ne =
    (mark-Marks 5 m dir index (omega arith) h ne, mark-Marks 6 m dir index (omega arith) h ne)
