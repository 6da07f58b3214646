-- ===== src/Kernel/Heap/Allocate.antt =====
-- `kmalloc` on the list of blocks.
use ea_x.Prelude.{
  ℕ, zero, suc, ◌+◌, ◌-◌, ◌≤◌, ◌<◌, ◌≡◌, ◌≢◌, refl, ◌⊎◌, inl, inr, ◌^◌, ◌&&◌, Bool, List, [], ◌∷◌,
  Array, leb, ◌==◌, some, u32, length, if◌then◌else◌, arith, Bool-cases,
}
use ea_x.Kernel.Heap.{MemBlock, set_prev, is_free, first_fit, take_block, kmalloc}
use ea_x.Kernel.Heap.Take.{split-front, split-back, split-behind, whole-at, taken-below}
use ea_x.Kernel.Heap.Chain.{
  Cell, link, link-cases, link-first, IsChain, total, IsChain-same, IsChain-set_prev, IsHeap,
}

abbrev pub fits : ℕ → Cell → Bool
fits size c = is_free c.free && leb size c.size

-- First fit: the address of the block that is taken, or 0, and the blocks after that.
unfoldable pub allocate : (header size p : ℕ) → List Cell → ℕ × List Cell
allocate header size p [] = (0, [])
allocate header size p (c ∷ cs) =
    let rest = allocate header size (p + c.size) cs in
    if fits size c
    then (
      p,
      if leb (size + header + 16) c.size
          then record { size = size; free = 0 } ∷ record { size = c.size - size; free = 1 } ∷ cs
          else record c { free = 0 } ∷ cs,
    )
    else (rest.0, c ∷ rest.1)

first_fit_lem :
    (cs : List Cell) (fuel : ℕ) (blocks : Array MemBlock) (header size prev p : ℕ)
    → IsChain blocks prev p cs
    → 0 < p
    → length cs < fuel
    → first_fit fuel blocks size (link p cs) ≡ some (allocate header size p cs).0
unfolding first_fit allocate
first_fit_lem cs zero blocks header size prev p ch pos h = absurd (omega arith)
first_fit_lem [] (suc fuel) blocks header size prev p ch pos h = refl
first_fit_lem (c ∷ cs) (suc fuel) blocks header size prev p (here, some_bytes, rest) pos h =
    ground (arith, first_fit_lem cs fuel blocks header size p (p + c.size) rest)

-- The block that is taken does not lie below the chain, and there is none if nothing fits.
pub allocate-le :
    (cs : List Cell) (header size p : ℕ)
    → ((allocate header size p cs).0 ≡ 0) ⊎ (p ≤ (allocate header size p cs).0)
unfolding allocate
allocate-le [] header size p = inl refl
allocate-le (c ∷ cs) header size p = ground (arith, allocate-le cs header size (p + c.size))

module _ (header size : ℕ) (some_bytes : 0 < size) (no_wrap : size + header + 16 < 2 ^ 32) where
  take-first :
      (c : Cell) (cs : List Cell) (blocks : Array MemBlock) (prev p : ℕ)
      → IsChain blocks prev p (c ∷ cs)
      → 0 < p
      → p + total (c ∷ cs) < 2 ^ 32
      → IsChain (take_block header blocks size p) prev p (
          if leb (size + header + 16) c.size
          then record { size = size; free = 0 } ∷ record { size = c.size - size; free = 1 } ∷ cs
          else record c { free = 0 } ∷ cs)
  take-first c cs blocks prev p (here, pos, rest) start end =
      let q = link (p + c.size) cs in
      let behind = link-cases (p + c.size) cs in
      let bound : p + c.size < 2 ^ 32 = omega arith in
      elim (Bool-cases (leb (size + header + 16) c.size)) [
        | inl room ↦
            let le : size + header + 16 ≤ c.size = ground arith in
            let same : p + size + (c.size - size) ≡ p + c.size = omega arith in
            let tail =
              IsChain-same cs (if q == 0 then blocks else set_prev blocks q (p + size))
                (take_block header blocks size p) (p + size) (p + c.size)
                (λ a h.
                  split-behind blocks header size p c.size c.free q prev here behind some_bytes
                    start bound no_wrap a le h)
                (IsChain-set_prev cs blocks p (p + size) (p + c.size) rest (omega arith)) in
            rw (room, same)
              (
                split-front blocks header size p c.size c.free q prev here behind some_bytes start
                    bound no_wrap le,
                some_bytes,
                (
                  split-back blocks header size p c.size c.free q prev here behind some_bytes start
                      bound no_wrap le,
                  omega arith,
                  tail,
                ),
              )
        | inr full ↦
            let whole = λ (a : ℕ).
              whole-at blocks header size p c.size c.free q prev here behind some_bytes start bound
                no_wrap a (ground arith) in
            rw full (
              ground (arith, whole p),
              pos,
              IsChain-same cs blocks (take_block header blocks size p) p (p + c.size)
                  (λ a h. ground (arith, whole a)) rest,
            )
      ]

  take-below :
      (cs : List Cell) (blocks : Array MemBlock) (prev p x : ℕ)
      → IsChain blocks prev p cs
      → 0 < p
      → p + total cs < 2 ^ 32
      → x < p
      → (allocate header size p cs).0 ≢ 0
      → take_block header blocks size (allocate header size p cs).0 x ≡ blocks x
  unfolding allocate
  take-below [] blocks prev p x ch start end below taken = absurd (taken refl)
  take-below (c ∷ cs) blocks prev p x (here, pos, rest) start end below taken =
      elim (Bool-cases (fits size c)) [
        | inl fit ↦ rw fit (
            taken-below blocks header size p c.size c.free (link (p + c.size) cs) prev here
              (link-cases (p + c.size) cs) some_bytes start (omega arith) no_wrap x below)
        | inr unfit ↦ rw unfit (
            take-below cs blocks p (p + c.size) x rest (omega arith) (omega arith) (omega arith)
              (rw unfit at taken))
      ]

  allocate-link : (cs : List Cell) (p q : ℕ) → link q (allocate header size p cs).1 ≡ link q cs
  unfolding allocate
  allocate-link [] p q = refl
  allocate-link (c ∷ cs) p q = ground arith

  -- The block that first fit finds is taken.
  take-allocated :
      (cs : List Cell) (blocks : Array MemBlock) (prev p : ℕ)
      → IsChain blocks prev p cs
      → 0 < p
      → p + total cs < 2 ^ 32
      → (allocate header size p cs).0 ≢ 0
      → IsChain
          (take_block header blocks size (allocate header size p cs).0)
          prev
          p
          (allocate header size p cs).1
  unfolding allocate
  take-allocated [] blocks prev p ch start end taken = tt
  take-allocated (c ∷ cs) blocks prev p (here, pos, rest) start end taken =
      elim (Bool-cases (fits size c)) [
        | inl fit ↦ rw fit (take-first c cs blocks prev p (here, pos, rest) start end)
        | inr unfit ↦
            let found = rw unfit at taken in
            rw unfit (
              ground (
                arith,
                allocate-link cs (p + c.size) (p + c.size),
                take-below cs blocks p (p + c.size) p rest (omega arith) (omega arith) (omega arith)
                    found,
              ),
              pos,
              take-allocated cs blocks p (p + c.size) rest (omega arith) (omega arith) found,
            )
      ]

  pub allocate-none :
      (cs : List Cell) (p : ℕ)
      → 0 < p
      → (allocate header size p cs).0 ≡ 0
      → (allocate header size p cs).1 ≡ cs
  unfolding allocate
  allocate-none [] p start none_fits = refl
  allocate-none (c ∷ cs) p start none_fits = ground (arith, allocate-none cs (p + c.size))

  allocate-total : (cs : List Cell) (p : ℕ) → total (allocate header size p cs).1 ≡ total cs
  unfolding allocate
  allocate-total [] p = refl
  allocate-total (c ∷ cs) p = ground (arith, allocate-total cs (p + c.size))

-- `kmalloc` ends on every heap, with fuel above the number of blocks, and does what first fit does
-- on the list of blocks: it returns NULL and changes nothing for 0 bytes and where no free block has
-- the bytes asked for, rounded up, and otherwise takes the first that has, splits it where a header
-- and 16 bytes are left, and returns the address a header behind its start, on 32 bits. The blocks
-- still fill the heap without a gap. The rounding must neither lower the request nor come near 2^32.
pub kmalloc-requested :
    (align_up : ℕ → ℕ) (header fuel size p : ℕ) (blocks : Array MemBlock) (cs : List Cell)
    → IsHeap blocks p cs
    → length cs < fuel
    → size ≤ align_up size
    → align_up size + header + 16 < 2 ^ 32
    → let (a, cs') = if size == 0 then (0, cs) else allocate header (align_up size) p cs in
      (blocks' : Array MemBlock) × (kmalloc header align_up fuel p blocks size
        ≡ some (if a == 0 then 0 else u32 (a + header), blocks'))
      × IsHeap blocks' p cs'
      × (total cs' ≡ total cs)
unfolding kmalloc
kmalloc-requested align_up header fuel size p blocks cs v enough rounded no_wrap =
    let asked = align_up size in
    let found =
      rw (link-first p cs v.bytes) at
        (first_fit_lem cs fuel blocks header asked 0 p v.chain v.start enough) in
    elim (Bool-cases (size == 0)) [
      | inl nothing ↦ (blocks, rw nothing refl, rw nothing v, rw nothing refl)
      | inr something ↦ elim (Bool-cases ((allocate header asked p cs).0 == 0)) [
        | inl none_fits ↦
            let same =
              allocate-none header asked (ground arith) no_wrap cs p v.start (ground arith) in
            (
              blocks,
              rw (something, found, none_fits) refl,
              rw (something, same) v,
              rw (something, same) refl,
            )
        | inr fit ↦
            let kept = allocate-total header asked (ground arith) no_wrap cs p in
            (
              take_block header blocks asked (allocate header asked p cs).0,
              rw (something, found, fit) refl,
              rw something (record {
                chain =
                    take-allocated header asked (ground arith) no_wrap cs blocks 0 p v.chain v.start
                      v.end (ground arith);
                start = v.start;
                bytes = rw kept v.bytes;
                end = rw kept v.end;
              }),
              rw something kept,
            )
      ]
    ]
