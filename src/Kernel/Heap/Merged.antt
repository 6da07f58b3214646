-- ===== src/Kernel/Heap/Merged.antt =====
-- No two free blocks of the heap lie side by side.
use ea_x.Prelude.{
  ℕ, zero, suc, ◌+◌, ◌-◌, ◌≡◌, refl, ◌⊎◌, inl, inr, List, [], ◌∷◌, leb, arith, Bool-cases,
}
use ea_x.Kernel.Heap.{is_free}
use ea_x.Kernel.Heap.Chain.{Cell}
use ea_x.Kernel.Heap.Allocate.{fits, allocate}
use ea_x.Kernel.Heap.Release.{joined, grown, release}

-- No free block has a free block behind it, and the marks are 0 and 1.
abbrev pub Guarded : Cell → List Cell → Type 0
Guarded c [] = Unit {0}
Guarded c (d ∷ ds) = (c.free ≡ 0) ⊎ (d.free ≡ 0)

abbrev pub IsMerged : List Cell → Type 0
IsMerged [] = Unit {0}
IsMerged (c ∷ cs) = ((c.free ≡ 0) ⊎ (c.free ≡ 1)) × Guarded c cs × IsMerged cs

-- Only the mark of the block in front counts.
Guarded-mark : (b c : Cell) (cs : List Cell) → c.free ≡ b.free → Guarded b cs → Guarded c cs
Guarded-mark b c [] e g = tt
Guarded-mark b c (d ∷ ds) e g = ground arith

used-Guarded : (c : Cell) (cs : List Cell) → c.free ≡ 0 → Guarded c cs
used-Guarded c [] e = tt
used-Guarded c (d ∷ ds) e = inl e

module _ (header size : ℕ) where
  Guarded-allocate :
      (b : Cell) (cs : List Cell) (p : ℕ) → Guarded b cs → Guarded b (allocate header size p cs).1
  unfolding allocate
  Guarded-allocate b [] p g = tt
  Guarded-allocate b (c ∷ cs) p g = elim (Bool-cases (fits size c)) [
    | inl fit ↦ elim (Bool-cases (leb (size + header + 16) c.size)) [
      | inl room ↦ rw (fit, room) (inr refl)
      | inr full ↦ rw (fit, full) (inr refl)
    ]
    | inr unfit ↦ rw unfit g
  ]

  pub allocate-IsMerged :
      (cs : List Cell) (p : ℕ) → IsMerged cs → IsMerged (allocate header size p cs).1
  unfolding allocate
  allocate-IsMerged [] p v = tt
  allocate-IsMerged (c ∷ cs) p (mark, guard, v) = elim (Bool-cases (fits size c)) [
    | inl fit ↦
        let marked : c.free ≡ 1 = ground arith in
        elim (Bool-cases (leb (size + header + 16) c.size)) [
          | inl room ↦
              let rest : Cell = record { size = c.size - size; free = 1 } in
              rw (fit, room)
                (inl refl, inl refl, (inr refl, Guarded-mark c rest cs (ground arith) guard, v))
          | inr full ↦ rw (fit, full) (inl refl, used-Guarded (record c { free = 0 }) cs refl, v)
        ]
    | inr unfit ↦
        rw unfit
          (mark, Guarded-allocate c cs (p + c.size) guard, allocate-IsMerged cs (p + c.size) v)
  ]

-- A free block that has taken in what is free behind it.
joined-IsMerged : (c : Cell) (cs : List Cell) → c.free ≡ 1 → IsMerged cs → IsMerged (joined c cs)
unfolding joined
joined-IsMerged c [] e v = (inr e, tt, tt)
joined-IsMerged c (d ∷ ds) e (mark, guard, v) = elim (Bool-cases (is_free d.free)) [
  | inl both ↦
      let c1 = record c { size = c.size + d.size } in
      rw both (inr e, Guarded-mark d c1 ds (ground arith) guard, v)
  | inr taken ↦ rw taken (inr e, inr (ground arith), (mark, guard, v))
]

abbrev StartsFree : List Cell → Type 0
StartsFree [] = Unit {0}
StartsFree (c ∷ cs) = c.free ≡ 1

joined-StartsFree : (c : Cell) (cs : List Cell) → c.free ≡ 1 → StartsFree (joined c cs)
unfolding joined
joined-StartsFree c [] e = e
joined-StartsFree c (d ∷ ds) e = elim (Bool-cases (is_free d.free)) [
  | inl both ↦ rw both e
  | inr taken ↦ rw taken e
]

grown-IsMerged :
    (b : Cell) (cs : List Cell)
    → (b.free ≡ 0) ⊎ (b.free ≡ 1)
    → IsMerged cs
    → StartsFree cs
    → IsMerged (grown b cs)
unfolding grown
grown-IsMerged b [] mark v first = (mark, tt, tt)
grown-IsMerged b (c ∷ cs) mark (mark', guard, v) first = elim (Bool-cases (is_free b.free)) [
  | inl both ↦
      let b1 = record b { size = b.size + c.size } in
      rw both (mark, Guarded-mark c b1 cs (ground arith) guard, v)
  | inr taken ↦ rw taken (mark, inl (ground arith), (mark', guard, v))
]

Guarded-grown : (a b : Cell) (cs : List Cell) → Guarded a (b ∷ cs) → Guarded a (grown b cs)
unfolding grown
Guarded-grown a b [] g = g
Guarded-grown a b (c ∷ cs) g = elim (Bool-cases (is_free b.free)) [
  | inl both ↦ rw both g
  | inr taken ↦ rw taken g
]

Guarded-release :
    (k : ℕ) (b : Cell) (cs : List Cell) → Guarded b cs → Guarded b (release (suc k) cs)
unfolding release
Guarded-release k b [] g = tt
Guarded-release zero b (c ∷ []) g = g
Guarded-release zero b (c ∷ d ∷ ds) g = Guarded-grown b c (joined (record d { free = 1 }) ds) g
Guarded-release (suc k) b (c ∷ cs) g = g

pub release-IsMerged : (k : ℕ) (cs : List Cell) → IsMerged cs → IsMerged (release k cs)
unfolding release
release-IsMerged k [] v = tt
release-IsMerged zero (c ∷ cs) (mark, guard, v) = joined-IsMerged (record c { free = 1 }) cs refl v
release-IsMerged (suc zero) (b ∷ []) v = v
release-IsMerged (suc zero) (b ∷ c ∷ cs) (mark, guard, (mark', guard', v)) =
    let c1 = record c { free = 1 } in
    grown-IsMerged b (joined c1 cs) mark (joined-IsMerged c1 cs refl v)
      (joined-StartsFree c1 cs refl)
release-IsMerged (suc (suc k)) (b ∷ cs) (mark, guard, v) =
    (mark, Guarded-release k b cs guard, release-IsMerged (suc k) cs v)
