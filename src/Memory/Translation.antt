-- ===== src/Memory/Translation.antt =====
-- What a new mapping does to the translation of addresses.
use ea_x.Prelude.{
  ℕ, suc, ◌+◌, ◌<◌, ◌≡◌, none, some, inl, inr, Array, update, u32, if◌then◌else◌, arith,
  Option-cases,
}
use ea_x.Prelude.Search.{find-suc, find-congr, find-lt}
use ea_x.Memory.{MemoryMapping, MemoryManager}
use ea_x.Memory.Paging.{
  mm_create_virtual_mapping, mm_translate_virtual_to_physical, translate_in, mapping_slot, maps,
  translated, max_mappings, add_mapping,
}

module _ (mappings : Array MemoryMapping) (count : ℕ) (mapping : MemoryMapping) (vaddr : ℕ) where
  abbrev extended : Array MemoryMapping
  extended = update mappings count mapping

  slot-add : mapping_slot extended (suc count) vaddr ≡ elim (mapping_slot mappings count vaddr) [
    | none ↦ if maps mapping vaddr then some count else none
    | some i ↦ some i
  ]
  slot-add =
      let old : mapping_slot extended count vaddr ≡ mapping_slot mappings count vaddr =
        find-congr _ _ count (λ j h. ground arith) in
      ground (arith, old, find-suc (λ i. maps (extended i) vaddr) count)

  translate_in-add :
      translate_in extended (suc count) vaddr ≡ elim (mapping_slot mappings count vaddr) [
        | none ↦ if maps mapping vaddr then translated mapping vaddr else 0
        | some i ↦ translate_in mappings count vaddr
      ]
  unfolding translate_in
  translate_in-add = elim (Option-cases (mapping_slot mappings count vaddr)) [
    | inl e ↦ rw (slot-add, e) (ground arith)
    | inr (i, e) ↦
        let below = find-lt (λ j. maps (mappings j) vaddr) count e in
        rw (slot-add, e) (ground arith)
  ]

-- `mm_create_virtual_mapping` with an array behind `mappings`, and room in it: the call succeeds,
-- an address that an earlier mapping holds is translated as before, an address in the new mapping
-- goes to its place there, and any other address to 0.
mm_translate-create :
    (m : MemoryManager) (mappings : Array MemoryMapping) (mapping : MemoryMapping)
    → m.vm.mappings ≡ some mappings
    → m.vm.mapping_count < max_mappings
    → let m' = add_mapping m mappings mapping in
      (mm_create_virtual_mapping m mapping.vaddr mapping.paddr mapping.size mapping.permissions
        ≡ some (1, m'))
      × ((vaddr : ℕ)
          → mm_translate_virtual_to_physical m' vaddr
            ≡ elim (mapping_slot mappings m.vm.mapping_count vaddr) [
              | none ↦ some (if maps mapping vaddr then translated mapping vaddr else 0)
              | some i ↦ mm_translate_virtual_to_physical m vaddr
            ])
unfolding mm_create_virtual_mapping mm_translate_virtual_to_physical
mm_translate-create m mappings mapping e h = (
  rw e (ground arith),
  λ vaddr.
      let next : u32 (m.vm.mapping_count + 1) ≡ suc m.vm.mapping_count = omega arith in
      rw next (ground (arith, e, translate_in-add mappings m.vm.mapping_count mapping vaddr)),
)
