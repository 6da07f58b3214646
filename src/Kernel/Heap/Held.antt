-- ===== src/Kernel/Heap/Held.antt =====
-- The blocks of the heap in use that a client holds.
use ea_x.Prelude.{
  ℕ, zero, suc, ◌+◌, ◌-◌, ◌<◌, ◌≡◌, ◌≢◌, refl, inl, inr, true, ◌||◌, List, [], ◌∷◌, leb, arith,
  Bool-cases, Array,
}
use ea_x.Prelude.Members.{has, without, has-without}
use ea_x.Kernel.Heap.{MemBlock, is_free}
use ea_x.Kernel.Heap.Chain.{Cell, IsChain}
use ea_x.Kernel.Heap.Allocate.{fits, allocate}
use ea_x.Kernel.Heap.Release.{joined, grown, release, address}
use ea_x.Kernel.Heap.Free.{address-le}

module _ (header : ℕ) where
  -- Every block is free, or its pointer is held.
  abbrev pub AllHeld : List ℕ → ℕ → List Cell → Type 0
  AllHeld held p [] = Unit {0}
  AllHeld held p (c ∷ cs) =
      (is_free c.free || has (p + header) held ≡ true) × AllHeld held (p + c.size) cs

  more-AllHeld :
      (x : ℕ) (held : List ℕ) (cs : List Cell) (p : ℕ) → AllHeld held p cs → AllHeld (x ∷ held) p cs
  unfolding has
  more-AllHeld x held [] p v = tt
  more-AllHeld x held (c ∷ cs) p (here, v) = (ground arith, more-AllHeld x held cs (p + c.size) v)

  -- A pointer below those of the blocks is not one of theirs.
  without-AllHeld :
      (x : ℕ) (held : List ℕ) (cs : List Cell) (p : ℕ)
      → x < p + header
      → AllHeld held p cs
      → AllHeld (without x held) p cs
  without-AllHeld x held [] p below v = tt
  without-AllHeld x held (c ∷ cs) p below (here, v) = (
    rw (has-without (p + header) x held (omega arith)) here,
    without-AllHeld x held cs (p + c.size) (omega arith) v,
  )

  pub allocate-AllHeld :
      (size : ℕ) (held : List ℕ) (cs : List Cell) (p : ℕ)
      → 0 < size
      → AllHeld held p cs
      → (allocate header size p cs).0 ≢ 0
      → let (a, xs) = allocate header size p cs in AllHeld ((a + header) ∷ held) p xs
  unfolding allocate has
  allocate-AllHeld size held [] p pos v taken = tt
  allocate-AllHeld size held (c ∷ cs) p pos (here, v) taken = elim (Bool-cases (fits size c)) [
    | inl fit ↦
        let rest = more-AllHeld (p + header) held cs (p + c.size) v in
        elim (Bool-cases (leb (size + header + 16) c.size)) [
          | inl room ↦
              let same : p + size + (c.size - size) ≡ p + c.size = ground arith in
              rw (fit, room) (ground arith, (refl, rw same rest))
          | inr full ↦ rw (fit, full) (ground arith, rest)
        ]
    | inr unfit ↦
        rw unfit
          (ground arith, allocate-AllHeld size held cs (p + c.size) pos v (rw unfit at taken))
  ]

  joined-AllHeld :
      (held : List ℕ) (c : Cell) (cs : List Cell) (p : ℕ)
      → c.free ≡ 1
      → AllHeld held (p + c.size) cs
      → AllHeld held p (joined c cs)
  unfolding joined
  joined-AllHeld held c [] p e v = (ground arith, tt)
  joined-AllHeld held c (d ∷ ds) p e (here, v) = elim (Bool-cases (is_free d.free)) [
    | inl both ↦
        let same : p + (c.size + d.size) ≡ p + c.size + d.size = omega arith in
        rw (both, same) (ground arith, v)
    | inr taken ↦ rw taken (ground arith, (here, v))
  ]

  grown-AllHeld :
      (held : List ℕ) (b : Cell) (cs : List Cell) (p : ℕ)
      → AllHeld held p (b ∷ cs)
      → AllHeld held p (grown b cs)
  unfolding grown
  grown-AllHeld held b [] p v = v
  grown-AllHeld held b (c ∷ cs) p (front, (here, v)) = elim (Bool-cases (is_free b.free)) [
    | inl both ↦
        let same : p + (b.size + c.size) ≡ p + b.size + c.size = omega arith in
        rw (both, same) (ground arith, v)
    | inr taken ↦ rw taken (front, (here, v))
  ]

  pub release-AllHeld :
      (k : ℕ) (held : List ℕ) (cs : List Cell) (blocks : Array MemBlock) (prev p : ℕ)
      → IsChain blocks prev p cs
      → AllHeld held p cs
      → AllHeld (without (address p k cs + header) held) p (release k cs)
  unfolding release address
  release-AllHeld k held [] blocks prev p ch v = tt
  release-AllHeld zero held (c ∷ cs) blocks prev p (at, pos, rest) (here, v) =
      joined-AllHeld (without (p + header) held) (record c { free = 1 }) cs p refl
        (without-AllHeld (p + header) held cs (p + c.size) (omega arith) v)
  release-AllHeld (suc zero) held (b ∷ []) blocks prev p (at, pos, rest) (front, v) =
      (rw (has-without (p + header) (p + b.size + header) held (omega arith)) front, tt)
  release-AllHeld (suc zero) held (b ∷ c ∷ cs) blocks prev p (at, pos, (at', pos', rest))
        (front, (here, v)) =
      let m = p + b.size in
      let left = without (m + header) held in
      grown-AllHeld left b (joined (record c { free = 1 }) cs) p (
        rw (has-without (p + header) (m + header) held (omega arith)) front,
        joined-AllHeld left (record c { free = 1 }) cs m refl
            (without-AllHeld (m + header) held cs (m + c.size) (omega arith) v),
      )
  release-AllHeld (suc (suc k)) held (b ∷ cs) blocks prev p (at, pos, rest) (front, v) =
      let x = address (p + b.size) (suc k) cs + header in
      let above : p + header < x = omega (arith, address-le (p + b.size) (suc k) cs) in
      (
        rw (has-without (p + header) x held (omega arith)) front,
        release-AllHeld (suc k) held cs blocks p (p + b.size) rest v,
      )
