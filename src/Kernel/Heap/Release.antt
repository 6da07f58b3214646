-- ===== src/Kernel/Heap/Release.antt =====
-- `kfree` on the list of blocks.
use ea_x.Prelude.{
  ℕ, zero, suc, ◌+◌, ◌<◌, ◌≡◌, refl, ◌⊎◌, inl, inr, ◌^◌, List, [], ◌∷◌, Array, update, ◌==◌,
  if◌then◌else◌, arith, Bool-cases,
}
use ea_x.Kernel.Heap.{MemBlock, set_prev, is_free, join_next, join_prev}
use ea_x.Kernel.Heap.Join.{
  join_next-front, join_next-behind, join_next-kept, join_next-low, join_prev-front,
  join_prev-behind, join_prev-kept, join_prev-low,
}
use ea_x.Kernel.Heap.Chain.{Cell, link, link-cases, IsChain, total, IsChain-same, IsChain-set_prev}

-- A block takes in the one behind it, if that is free.
unfoldable pub joined : Cell → List Cell → List Cell
joined c [] = c ∷ []
joined c (d ∷ ds) = if is_free d.free then record c { size = c.size + d.size } ∷ ds else c ∷ d ∷ ds

-- A block that is free takes in the one behind it.
unfoldable pub grown : Cell → List Cell → List Cell
grown b [] = b ∷ []
grown b (c ∷ cs) = if is_free b.free then record b { size = b.size + c.size } ∷ cs else b ∷ c ∷ cs

-- Block `k` is set free, and made one with the free blocks on both sides of it.
unfoldable pub release : ℕ → List Cell → List Cell
release k [] = []
release zero (c ∷ cs) = joined (record c { free = 1 }) cs
release (suc zero) (b ∷ []) = b ∷ []
release (suc zero) (b ∷ c ∷ cs) = grown b (joined (record c { free = 1 }) cs)
release (suc (suc k)) (b ∷ cs) = b ∷ release (suc k) cs

-- The address of block `k`.
unfoldable pub address : ℕ → ℕ → List Cell → ℕ
address p zero cs = p
address p (suc k) [] = p
address p (suc k) (c ∷ cs) = address (p + c.size) k cs

unfoldable pub freed : Array MemBlock → ℕ → Array MemBlock
freed blocks p = update blocks p (record (blocks p) { free = 1 })

pub freed-below : (blocks : Array MemBlock) (p x : ℕ) → x < p → freed blocks p x ≡ blocks x
unfolding freed
freed-below blocks p x h = ground arith

pub freed-IsChain :
    (c : Cell) (cs : List Cell) (blocks : Array MemBlock) (prev p : ℕ)
    → IsChain blocks prev p (c ∷ cs)
    → IsChain (freed blocks p) prev p (record c { free = 1 } ∷ cs)
unfolding freed
freed-IsChain c cs blocks prev p (here, pos, rest) = (
  ground arith,
  pos,
  IsChain-same cs blocks (freed blocks p) p (p + c.size) (λ a h. ground arith) rest,
)

pub joined-link : (c : Cell) (cs : List Cell) (q : ℕ) → link q (joined c cs) ≡ q
unfolding joined
joined-link c [] q = refl
joined-link c (d ∷ ds) q = ground arith

-- The two blocks of a chain are one in a store that has the first with the size and the link of both.
merged-IsChain :
    (b c : Cell) (cs : List Cell) (blocks blocks' : Array MemBlock) (prev p : ℕ)
    → IsChain blocks prev p (b ∷ c ∷ cs)
    → let q = link (p + b.size + c.size) cs in
      blocks' p ≡ record { size = b.size + c.size; free = b.free; next = q; prev = prev }
      → ((a : ℕ) → p + b.size < a → blocks' a ≡ (if q == 0 then blocks else set_prev blocks q p) a)
      → IsChain blocks' prev p (record b { size = b.size + c.size } ∷ cs)
merged-IsChain b c cs blocks blocks' prev p (here, pos, (next, pos', rest)) front behind =
    let r = p + b.size + c.size in
    let q = link r cs in
    let same : p + (b.size + c.size) ≡ r = omega arith in
    rw same (
      front,
      omega arith,
      IsChain-same cs (if q == 0 then blocks else set_prev blocks q p) blocks' p r
          (λ a h. behind a (omega arith))
          (IsChain-set_prev cs blocks (p + b.size) p r rest (omega arith)),
    )

link-beyond :
    (p m : ℕ) (c : Cell) (cs : List Cell)
    → 0 < c.size
    → (link (m + c.size) cs ≡ 0) ⊎ (m < link (m + c.size) cs)
link-beyond p m c cs h = ground (arith, link-cases (m + c.size) cs)

pub join_next-IsChain :
    (c : Cell) (cs : List Cell) (blocks : Array MemBlock) (prev p : ℕ)
    → IsChain blocks prev p (c ∷ cs)
    → 0 < p
    → p + total (c ∷ cs) < 2 ^ 32
    → IsChain (join_next blocks p) prev p (joined c cs)
      × ((x : ℕ) → x < p → join_next blocks p x ≡ blocks x)
unfolding joined
join_next-IsChain c [] blocks prev p (here, pos, rest) start end =
    unfold join_next in ((ground arith, pos, tt), λ x h. ground arith)
join_next-IsChain c (d ∷ ds) blocks prev p (here, pos, (next, pos', rest)) start end =
    let m = p + c.size in
    let q = link (m + d.size) ds in
    let beyond = link-beyond p m d ds pos' in
    let above : p < m = omega arith in
    let small : c.size + d.size < 2 ^ 32 = omega arith in
    (
      elim (Bool-cases (is_free d.free)) [
        | inl both ↦ rw both (
            merged-IsChain c d ds blocks (join_next blocks p) prev p (here, pos, (next, pos', rest))
              (join_next-front blocks p m c.size c.free prev d.size d.free q here next start above
                beyond small both)
              (λ a h.
                join_next-behind blocks p m c.size c.free prev d.size d.free q here next start above
                  beyond small a both h))
        | inr taken ↦ rw taken (
            IsChain-same (c ∷ d ∷ ds) blocks (join_next blocks p) prev p
              (λ a h.
                join_next-kept blocks p m c.size c.free prev d.size d.free q here next start above
                  beyond small a taken)
              (here, pos, (next, pos', rest)))
      ],
      λ x h.
          join_next-low blocks p m c.size c.free prev d.size d.free q here next start above beyond
            small x h,
    )

pub join_prev-first :
    (blocks : Array MemBlock) (p a : ℕ) → (blocks p).prev ≡ 0 → join_prev blocks p a ≡ blocks a
unfolding join_prev
join_prev-first blocks p a e = ground arith

pub join_prev-IsChain :
    (b : Cell) (cs : List Cell) (blocks : Array MemBlock) (prev p : ℕ)
    → IsChain blocks prev p (b ∷ cs)
    → 0 < total cs
    → 0 < p
    → p + total (b ∷ cs) < 2 ^ 32
    → IsChain (join_prev blocks (p + b.size)) prev p (grown b cs)
      × ((x : ℕ) → x < p → join_prev blocks (p + b.size) x ≡ blocks x)
unfolding grown
join_prev-IsChain b [] blocks prev p ch more start end = absurd (omega arith)
join_prev-IsChain b (c ∷ cs) blocks prev p (here, pos, (next, pos', rest)) more start end =
    let m = p + b.size in
    let q = link (m + c.size) cs in
    let beyond = link-beyond p m c cs pos' in
    let above : p < m = omega arith in
    let small : b.size + c.size < 2 ^ 32 = omega arith in
    (
      elim (Bool-cases (is_free b.free)) [
        | inl both ↦ rw both (
            merged-IsChain b c cs blocks (join_prev blocks m) prev p (here, pos, (next, pos', rest))
              (join_prev-front blocks p m b.size b.free prev c.size c.free q here next start above
                beyond small both)
              (λ a h.
                join_prev-behind blocks p m b.size b.free prev c.size c.free q here next start above
                  beyond small a both h))
        | inr taken ↦ rw taken (
            IsChain-same (b ∷ c ∷ cs) blocks (join_prev blocks m) prev p
              (λ a h.
                join_prev-kept blocks p m b.size b.free prev c.size c.free q here next start above
                  beyond small a taken)
              (here, pos, (next, pos', rest)))
      ],
      λ x h.
          join_prev-low blocks p m b.size b.free prev c.size c.free q here next start above beyond
            small x h,
    )
