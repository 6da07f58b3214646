-- ===== src/Stdlib/Alloc/Blocks.antt =====
-- Where the blocks of `malloc` lie.
use ea_x.Prelude.{
  ℕ, ◌+◌, ◌-◌, ◌^◌, ◌≤◌, ◌<◌, ◌≡◌, refl, ◌⊎◌, inl, inr, false, List, [], ◌∷◌, u32, ltb, ◌==◌,
  if◌then◌else◌, arith, Bool-cases,
}
use ea_x.Stdlib.Alloc.{Heap, malloc, heap_size}

-- The blocks, start and size, that a sequence of calls is given; a call that gets NULL has none.
unfoldable pub blocks : Heap → List ℕ → List (ℕ × ℕ)
blocks h [] = []
blocks h (size ∷ sizes) =
    let (ptr, h') = malloc h size in
    let rest = blocks h' sizes in if ptr == 0 then rest else (ptr, size) ∷ rest

-- The blocks lie one behind the other, from `lo` on and up to `hi`.
abbrev pub Apart : ℕ → List (ℕ × ℕ) → ℕ → Type 0
Apart lo [] hi = lo ≤ hi
Apart lo ((ptr, size) ∷ bs) hi = (lo ≤ ptr) × Apart (ptr + size) bs hi

-- No request of almost 4 GB.
abbrev pub Modest : List ℕ → Type 0
Modest [] = Unit {0}
Modest (size ∷ sizes) = (size < 2 ^ 32 - 2 ^ 24) × Modest sizes

-- A call gets NULL and changes nothing, or gets the next bytes of the heap.
abbrev Outcome : Heap → ℕ → Type 0
Outcome h size =
    (malloc h size ≡ (0, h))
    ⊎ ((malloc h size ≡ (h.heap + h.heap_used, record h { heap_used = h.heap_used + size }))
        × (h.heap_used + size ≤ heap_size))

malloc-Outcome :
    (h : Heap) (size : ℕ) → h.heap_used ≤ heap_size → size < 2 ^ 32 - 2 ^ 24 → Outcome h size
unfolding malloc
malloc-Outcome h size fits small = elim (Bool-cases (size == 0)) [
  | inl nothing ↦ inl (rw nothing refl)
  | inr something ↦ elim (Bool-cases (ltb heap_size (u32 (h.heap_used + size)))) [
    | inl full ↦ inl (rw (something, full) refl)
    | inr room ↦
        let sum : u32 (h.heap_used + size) ≡ h.heap_used + size = omega arith in
        inr (rw (something, room, sum) refl, ground arith)
  ]
]

-- The blocks that any sequence of calls is given lie apart from each other and within the heap, if no
-- call asks for almost 4 GB.
pub blocks-Apart :
    (sizes : List ℕ) (h : Heap)
    → 0 < h.heap
    → h.heap_used ≤ heap_size
    → Modest sizes
    → Apart (h.heap + h.heap_used) (blocks h sizes) (h.heap + heap_size)
unfolding blocks
blocks-Apart [] h pos fits modest = omega arith
blocks-Apart (size ∷ sizes) h pos fits (small, modest) = elim (malloc-Outcome h size fits small) [
  | inl refused ↦ rw refused (blocks-Apart sizes h pos fits modest)
  | inr (e, le) ↦
      let h' = record h { heap_used = h.heap_used + size } in
      let some_ptr : (h.heap + h.heap_used == 0) ≡ false = ground arith in
      let next : h.heap + (h.heap_used + size) ≡ h.heap + h.heap_used + size = omega arith in
      let rest = blocks-Apart sizes h' pos le modest in
      rw (e, some_ptr) (omega arith, rw next at rest)
]

-- The test of `malloc` wraps: a request of 2^32 - n bytes, for n above 0 and at most the bytes in use, is
-- granted, and leaves the last n bytes in use to be given away again: the next request of at most n bytes
-- gets them.
malloc-wraps :
    (h : Heap) (n size : ℕ)
    → h.heap_used ≤ heap_size
    → 0 < n
    → n ≤ h.heap_used
    → 0 < size
    → size ≤ n
    → let (ptr, h1) = malloc h (2 ^ 32 - n) in
      (ptr ≡ h.heap + h.heap_used) × ((malloc h1 size).0 ≡ h.heap + (h.heap_used - n))
unfolding malloc
malloc-wraps h n size fits pos held some_size le = (ground arith, ground arith)
