-- ===== src/Kernel/Heap/Chain.antt =====
-- The blocks of the heap as a list.
use ea_x.Prelude.{
  ℕ, ◌+◌, ◌≤◌, ◌<◌, ◌≡◌, refl, ◌⊎◌, inl, inr, ◌^◌, List, [], ◌∷◌, Array, ◌==◌, if◌then◌else◌, arith,
}
use ea_x.Kernel.Heap.{MemBlock, set_prev, memory_init}

-- A block without its links.
pub record Cell : Type 0 where
  pub size : ℕ
  pub free : ℕ

-- A pointer to the first of some blocks, or NULL.
abbrev pub link : ℕ → List Cell → ℕ
link p [] = 0
link p (c ∷ cs) = p

-- The store has these blocks from `p` on, each one right behind the last and linked to it, and none is
-- empty.
abbrev pub IsChain : Array MemBlock → (prev p : ℕ) → List Cell → Type 0
IsChain blocks prev p [] = Unit {0}
IsChain blocks prev p (c ∷ cs) =
    (blocks p ≡ record { size = c.size; free = c.free; next = link (p + c.size) cs; prev = prev })
    × (0 < c.size)
    × IsChain blocks p (p + c.size) cs

abbrev pub total : List Cell → ℕ
total [] = 0
total (c ∷ cs) = c.size + total cs

-- A chain does not depend on what lies below it.
pub IsChain-same :
    (cs : List Cell) (blocks blocks' : Array MemBlock) (prev p : ℕ)
    → ((a : ℕ) → p ≤ a → blocks' a ≡ blocks a)
    → IsChain blocks prev p cs
    → IsChain blocks' prev p cs
IsChain-same [] blocks blocks' prev p same ch = tt
IsChain-same (c ∷ cs) blocks blocks' prev p same (here, pos, rest) = (
  ground (arith, same p),
  pos,
  IsChain-same cs blocks blocks' p (p + c.size) (λ a h. same a (omega arith)) rest,
)

-- The first block of a chain gets another predecessor.
pub IsChain-set_prev :
    (cs : List Cell) (blocks : Array MemBlock) (prev prev' p : ℕ)
    → IsChain blocks prev p cs
    → 0 < p
    → IsChain (if link p cs == 0 then blocks else set_prev blocks (link p cs) prev') prev' p cs
IsChain-set_prev [] blocks prev prev' p ch pos = tt
IsChain-set_prev (c ∷ cs) blocks prev prev' p (here, some_bytes, rest) pos = (
  ground arith,
  some_bytes,
  IsChain-same cs blocks (if p == 0 then blocks else set_prev blocks p prev') p (p + c.size)
      (λ a h. ground arith) rest,
)

pub link-cases : (q : ℕ) (cs : List Cell) → (link q cs ≡ 0) ⊎ (link q cs ≡ q)
link-cases q [] = inl refl
link-cases q (c ∷ cs) = inr refl

pub link-first : (q : ℕ) (cs : List Cell) → 0 < total cs → link q cs ≡ q
link-first q [] h = absurd (omega arith)
link-first q (c ∷ cs) h = refl

-- What holds of the heap that starts at `p` and has these blocks.
pub record IsHeap (blocks : Array MemBlock) (p : ℕ) (cs : List Cell) : Type 0 where
  pub chain : IsChain blocks 0 p cs
  pub start : 0 < p
  pub bytes : 0 < total cs
  pub end : p + total cs < 2 ^ 32

-- The heap that `memory_init` leaves is one free block.
pub memory_init-IsHeap :
    (blocks : Array MemBlock) (heap_current size : ℕ)
    → 0 < heap_current
    → 0 < size
    → heap_current + size < 2 ^ 32
    → let (p, blocks') = memory_init blocks heap_current size in
      IsHeap blocks' p (record { size = size; free = 1 } ∷ [])
unfolding memory_init
memory_init-IsHeap blocks heap_current size start some_bytes end = record {
  chain = (ground arith, some_bytes, tt);
  start = start;
  bytes = omega arith;
  end = omega arith;
}
