-- ===== src/Kernel/Heap/InUse.antt =====
-- The blocks of the heap that are in use.
use ea_x.Prelude.{
  ℕ, zero, suc, ◌+◌, ◌-◌, ◌≤◌, ◌<◌, ◌≡◌, ◌≢◌, refl, ◌⊎◌, inl, inr, false, List, [], ◌∷◌, leb,
  length, arith, Bool-cases, Array,
}
use ea_x.Kernel.Heap.{MemBlock, is_free}
use ea_x.Kernel.Heap.Chain.{Cell, IsChain, total}
use ea_x.Kernel.Heap.Allocate.{fits, allocate, allocate-le}
use ea_x.Kernel.Heap.Release.{joined, grown, release, address}

-- A block in use starts at `a`.
abbrev pub InUse : ℕ → List Cell → ℕ → Type 0
InUse p [] a = ⊥
InUse p (c ∷ cs) a = ((a ≡ p) × (c.free ≡ 0)) ⊎ InUse (p + c.size) cs a

pub InUse-le : (cs : List Cell) (p a : ℕ) → InUse p cs a → (p ≤ a) × (a ≤ p + total cs)
InUse-le [] p a u = absurd u
InUse-le (c ∷ cs) p a (inl (e, used)) = omega arith
InUse-le (c ∷ cs) p a (inr u) = omega (arith, InUse-le cs (p + c.size) a u)

pub InUse-address :
    (cs : List Cell) (p a : ℕ) → InUse p cs a → (k : ℕ) × (k < length cs) × (address p k cs ≡ a)
unfolding address
InUse-address [] p a u = absurd u
InUse-address (c ∷ cs) p a (inl (e, used)) = (0, omega arith, omega arith)
InUse-address (c ∷ cs) p a (inr u) =
    let (k, inside, at) = InUse-address cs (p + c.size) a u in (suc k, omega arith, at)

module _ (header size : ℕ) (some_bytes : 0 < size) where
  -- What is in use stays in use, where it is.
  pub InUse-allocate :
      (cs : List Cell) (p a : ℕ) → InUse p cs a → InUse p (allocate header size p cs).1 a
  unfolding allocate
  InUse-allocate [] p a u = absurd u
  InUse-allocate (c ∷ cs) p a (inl (e, used)) =
      let unfit : fits size c ≡ false = ground arith in rw unfit (inl (e, used))
  InUse-allocate (c ∷ cs) p a (inr u) = elim (Bool-cases (fits size c)) [
    | inl fit ↦ elim (Bool-cases (leb (size + header + 16) c.size)) [
      | inl room ↦
          let same : p + size + (c.size - size) ≡ p + c.size = ground arith in
          rw (fit, room) (inr (inr (rw same u)))
      | inr full ↦ rw (fit, full) (inr u)
    ]
    | inr unfit ↦ rw unfit (inr (InUse-allocate cs (p + c.size) a u))
  ]

  pub allocate-InUse :
      (cs : List Cell) (p : ℕ)
      → (allocate header size p cs).0 ≢ 0
      → InUse p (allocate header size p cs).1 (allocate header size p cs).0
  unfolding allocate
  allocate-InUse [] p taken = absurd (taken refl)
  allocate-InUse (c ∷ cs) p taken = elim (Bool-cases (fits size c)) [
    | inl fit ↦ elim (Bool-cases (leb (size + header + 16) c.size)) [
      | inl room ↦ rw (fit, room) (inl (refl, refl))
      | inr full ↦ rw (fit, full) (inl (refl, refl))
    ]
    | inr unfit ↦ rw unfit (inr (allocate-InUse cs (p + c.size) (rw unfit at taken)))
  ]

  -- The block that is taken was free.
  pub allocate-fresh :
      (cs : List Cell) (blocks : Array MemBlock) (prev p a : ℕ)
      → IsChain blocks prev p cs
      → InUse p cs a
      → (allocate header size p cs).0 ≢ 0
      → (allocate header size p cs).0 ≢ a
  unfolding allocate
  allocate-fresh [] blocks prev p a ch u taken e = absurd u
  allocate-fresh (c ∷ cs) blocks prev p a (here, pos, rest) (inl (at, used)) taken e =
      let unfit : fits size c ≡ false = ground arith in
      let e' = rw unfit at e in
      let taken' = rw unfit at taken in ground (arith, allocate-le cs header size (p + c.size))
  allocate-fresh (c ∷ cs) blocks prev p a (here, pos, rest) (inr u) taken e =
      elim (Bool-cases (fits size c)) [
        | inl fit ↦ let e' = rw fit at e in omega (arith, InUse-le cs (p + c.size) a u)
        | inr unfit ↦
            allocate-fresh cs blocks p (p + c.size) a rest u (rw unfit at taken) (rw unfit at e)
      ]

  pub allocate-length :
      (cs : List Cell) (p : ℕ) → length (allocate header size p cs).1 ≤ suc (length cs)
  unfolding allocate
  allocate-length [] p = omega arith
  allocate-length (c ∷ cs) p = ground (arith, allocate-length cs (p + c.size))

InUse-joined :
    (c : Cell) (cs : List Cell) (p a : ℕ) → InUse (p + c.size) cs a → InUse p (joined c cs) a
unfolding joined
InUse-joined c [] p a u = absurd u
InUse-joined c (d ∷ ds) p a (inl (e, used)) =
    let taken : is_free d.free ≡ false = ground arith in rw taken (inr (inl (e, used)))
InUse-joined c (d ∷ ds) p a (inr u) = elim (Bool-cases (is_free d.free)) [
  | inl both ↦
      let same : p + (c.size + d.size) ≡ p + c.size + d.size = omega arith in
      rw (both, same) (inr u)
  | inr taken ↦ rw taken (inr (inr u))
]

InUse-grown :
    (b : Cell) (cs : List Cell) (p a : ℕ)
    → InUse p (b ∷ cs) a
    → a ≢ p + b.size
    → InUse p (grown b cs) a
unfolding grown
InUse-grown b [] p a u other = u
InUse-grown b (c ∷ cs) p a (inl (e, used)) other =
    let taken : is_free b.free ≡ false = ground arith in rw taken (inl (e, used))
InUse-grown b (c ∷ cs) p a (inr (inl (e, used))) other = absurd (other e)
InUse-grown b (c ∷ cs) p a (inr (inr u)) other = elim (Bool-cases (is_free b.free)) [
  | inl both ↦
      let same : p + (b.size + c.size) ≡ p + b.size + c.size = omega arith in
      rw (both, same) (inr u)
  | inr taken ↦ rw taken (inr (inr u))
]

-- A block that is set free takes no other out of use.
pub InUse-release :
    (k : ℕ) (cs : List Cell) (p a : ℕ)
    → InUse p cs a
    → a ≢ address p k cs
    → InUse p (release k cs) a
unfolding release address
InUse-release k [] p a u other = absurd u
InUse-release zero (c ∷ cs) p a (inl (e, used)) other = absurd (other e)
InUse-release zero (c ∷ cs) p a (inr u) other = InUse-joined (record c { free = 1 }) cs p a u
InUse-release (suc zero) (b ∷ []) p a u other = u
InUse-release (suc zero) (b ∷ c ∷ cs) p a (inl e) other =
    InUse-grown b (joined (record c { free = 1 }) cs) p a (inl e) other
InUse-release (suc zero) (b ∷ c ∷ cs) p a (inr (inl (e, used))) other = absurd (other e)
InUse-release (suc zero) (b ∷ c ∷ cs) p a (inr (inr u)) other =
    let c1 = record c { free = 1 } in
    InUse-grown b (joined c1 cs) p a (inr (InUse-joined c1 cs (p + b.size) a u)) other
InUse-release (suc (suc k)) (b ∷ cs) p a (inl e) other = inl e
InUse-release (suc (suc k)) (b ∷ cs) p a (inr u) other =
    inr (InUse-release (suc k) cs (p + b.size) a u other)

joined-length : (c : Cell) (cs : List Cell) → length (joined c cs) ≤ suc (length cs)
unfolding joined
joined-length c [] = omega arith
joined-length c (d ∷ ds) = ground arith

grown-length : (c : Cell) (cs : List Cell) → length (grown c cs) ≤ suc (length cs)
unfolding grown
grown-length c [] = omega arith
grown-length c (d ∷ ds) = ground arith

pub release-length : (k : ℕ) (cs : List Cell) → length (release k cs) ≤ length cs
unfolding release
release-length k [] = omega arith
release-length zero (c ∷ cs) = joined-length (record c { free = 1 }) cs
release-length (suc zero) (b ∷ []) = omega arith
release-length (suc zero) (b ∷ c ∷ cs) = omega (
  arith,
  grown-length b (joined (record c { free = 1 }) cs),
  joined-length (record c { free = 1 }) cs,
)
release-length (suc (suc k)) (b ∷ cs) = omega (arith, release-length (suc k) cs)
