-- ===== src/Kernel/Heap/RoundTrip.antt =====
-- A block of the heap that is given back.
use ea_x.Prelude.{
  ℕ, zero, suc, ◌+◌, ◌-◌, ◌≤◌, ◌<◌, ◌≡◌, ◌≢◌, refl, inl, inr, ◌^◌, false, List, [], ◌∷◌, Array, leb,
  ◌==◌, some, u32, length, if◌then◌else◌, arith, Bool-cases, ◌∙◌, ap,
}
use ea_x.Kernel.Heap.{MemBlock, kmalloc, kfree}
use ea_x.Kernel.Heap.Chain.{Cell, IsHeap}
use ea_x.Kernel.Heap.Allocate.{fits, allocate, kmalloc-requested}
use ea_x.Kernel.Heap.Release.{joined, grown, release, address}
use ea_x.Kernel.Heap.Merged.{Guarded, IsMerged}
use ea_x.Kernel.Heap.Free.{kfree-release}

-- The position of the first block that fits.
unfoldable pub position : ℕ → List Cell → ℕ
position size [] = 0
position size (c ∷ cs) = let rest = position size cs in if fits size c then 0 else suc rest

joined-split :
    (size : ℕ) (c : Cell) (cs : List Cell)
    → c.free ≡ 1
    → size ≤ c.size
    → joined (record { size = size; free = 1 }) (record { size = c.size - size; free = 1 } ∷ cs)
      ≡ c ∷ cs
unfolding joined
joined-split size c cs e h = ground arith

joined-whole :
    (c : Cell) (cs : List Cell)
    → c.free ≡ 1
    → Guarded c cs
    → joined (record c { free = 1 }) cs ≡ c ∷ cs
unfolding joined
joined-whole c [] e g = ground arith
joined-whole c (d ∷ ds) e g = ground arith

grown-guarded : (b c : Cell) (cs : List Cell) → b.free ≡ 0 → grown b (c ∷ cs) ≡ b ∷ c ∷ cs
unfolding grown
grown-guarded b c cs e = ground arith

release-grown :
    (b : Cell) (cs : List Cell) → 0 < length cs → release 1 (b ∷ cs) ≡ grown b (release 0 cs)
unfolding release
release-grown b [] h = absurd (omega arith)
release-grown b (c ∷ cs) h = refl

release-cons :
    (k : ℕ) (b : Cell) (xs cs : List Cell)
    → release k xs ≡ cs
    → k < length xs
    → (k ≡ 0 → grown b cs ≡ b ∷ cs)
    → release (suc k) (b ∷ xs) ≡ b ∷ cs
release-cons zero b xs cs e inside first = release-grown b xs inside ∙ ap (grown b) e ∙ first refl
release-cons (suc k) b xs cs e inside first = unfold release in ap (λ ys. b ∷ ys) e

-- The block in front of one that fits is not free.
grown-first :
    (size : ℕ) (b : Cell) (cs : List Cell)
    → Guarded b cs
    → position size cs ≡ 0
    → grown b cs ≡ b ∷ cs
unfolding position
grown-first size b [] guard e = unfold grown in refl
grown-first size b (c ∷ cs) guard e = grown-guarded b c cs (ground arith)

module _ (header size : ℕ) where
  position-address :
      (cs : List Cell) (p : ℕ)
      → (allocate header size p cs).0 ≢ 0
      → (address p (position size cs) (allocate header size p cs).1 ≡ (allocate header size p cs).0)
        × (position size cs < length (allocate header size p cs).1)
  unfolding position allocate address
  position-address [] p taken = absurd (taken refl)
  position-address (c ∷ cs) p taken = elim (Bool-cases (fits size c)) [
    | inl fit ↦ rw fit (refl, ground arith)
    | inr unfit ↦
        let (same, inside) = position-address cs (p + c.size) (rw unfit at taken) in
        rw unfit (same, omega arith)
  ]

  release-allocate :
      (cs : List Cell) (p : ℕ)
      → IsMerged cs
      → (allocate header size p cs).0 ≢ 0
      → release (position size cs) (allocate header size p cs).1 ≡ cs
  unfolding position allocate
  release-allocate [] p v taken = absurd (taken refl)
  release-allocate (c ∷ cs) p (mark, guard, v) taken = elim (Bool-cases (fits size c)) [
    | inl fit ↦
        let marked : c.free ≡ 1 = ground arith in
        elim (Bool-cases (leb (size + header + 16) c.size)) [
          | inl room ↦
              rw (fit, room) (unfold release in joined-split size c cs marked (ground arith))
          | inr full ↦ rw (fit, full) (unfold release in joined-whole c cs marked guard)
        ]
    | inr unfit ↦
        let found = rw unfit at taken in
        rw unfit (
          release-cons (position size cs) c (allocate header size (p + c.size) cs).1 cs
            (release-allocate cs (p + c.size) v found) (position-address cs (p + c.size) found).1
            (grown-first size c cs guard))
  ]

-- On a heap without two free blocks in a row, `kfree` of what `kmalloc` has given, with fuel above
-- the number of blocks, brings back the blocks as they were before the two calls, if there was a
-- block that fits. The request is not 0, the rounding does not lower it, and it and the pointer stay
-- below 2^32.
pub kfree-kmalloc :
    (align_up : ℕ → ℕ) (header fuel size p : ℕ) (blocks : Array MemBlock) (cs : List Cell)
    → IsHeap blocks p cs
    → IsMerged cs
    → length cs < fuel
    → 0 < size
    → size ≤ align_up size
    → align_up size + header + 16 < 2 ^ 32
    → (allocate header (align_up size) p cs).0 ≢ 0
    → (allocate header (align_up size) p cs).0 + header < 2 ^ 32
    → (ptr : ℕ) × (blocks' : Array MemBlock) × (kmalloc header align_up fuel p blocks size
        ≡ some (ptr, blocks'))
      × (ptr ≢ 0)
      × IsHeap (kfree header blocks' ptr) p cs
kfree-kmalloc align_up header fuel size p blocks cs v merged enough pos rounded no_wrap found
      small =
    let asked = align_up size in
    let k = position asked cs in
    let (a, xs) = allocate header asked p cs in
    let something : (size == 0) ≡ false = ground arith in
    let fit : (a == 0) ≡ false = ground arith in
    let same : u32 (a + header) ≡ a + header = omega arith in
    let (blocks', ran, v', kept) =
      kmalloc-requested align_up header fuel size p blocks cs v enough rounded no_wrap in
    let (at, inside) = position-address header asked cs p found in
    let given : IsHeap blocks' p xs = rw something at v' in
    let back = (kfree-release header k p blocks' xs given inside (rw at small)).0 in
    (
      a + header,
      blocks',
      rw (something, fit, same) at ran,
      omega arith,
      rw (at, release-allocate header asked cs p merged found) at back,
    )
