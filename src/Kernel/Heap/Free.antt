-- ===== src/Kernel/Heap/Free.antt =====
-- What `kfree` does to the list of blocks.
use ea_x.Prelude.{
  ℕ, zero, suc, ◌+◌, ◌≤◌, ◌<◌, ◌≡◌, refl, inl, inr, ◌^◌, false, List, [], ◌∷◌, Array, ◌==◌, sub32,
  length, arith, Bool-cases, ◌∙◌,
}
use ea_x.Kernel.Heap.{MemBlock, is_free, join_next, join_prev, kfree}
use ea_x.Kernel.Heap.Chain.{Cell, link, IsChain, total, IsChain-same, IsHeap}
use ea_x.Kernel.Heap.Release.{
  joined, grown, release, address, freed, freed-below, freed-IsChain, joined-link,
  join_next-IsChain, join_prev-first, join_prev-IsChain,
}

abbrev set_free : Array MemBlock → ℕ → Array MemBlock
set_free blocks block = join_prev (join_next (freed blocks block) block) block

joined-prev :
    (c : Cell) (cs : List Cell) (blocks : Array MemBlock) (prev p : ℕ)
    → IsChain blocks prev p (joined c cs)
    → (blocks p).prev ≡ prev
unfolding joined
joined-prev c [] blocks prev p (here, pos, rest) = ground arith
joined-prev c (d ∷ ds) blocks prev p ch = elim (Bool-cases (is_free d.free)) [
  | inl both ↦ let v = rw both at ch in let here = v.0 in ground arith
  | inr taken ↦ let v = rw taken at ch in let here = v.0 in ground arith
]

joined-total : (c : Cell) (cs : List Cell) → total (joined c cs) ≡ total (c ∷ cs)
unfolding joined
joined-total c [] = refl
joined-total c (d ∷ ds) = ground arith

grown-total : (c : Cell) (cs : List Cell) → total (grown c cs) ≡ total (c ∷ cs)
unfolding grown
grown-total c [] = refl
grown-total c (d ∷ ds) = ground arith

grown-link : (c : Cell) (cs : List Cell) (q : ℕ) → link q (grown c cs) ≡ q
unfolding grown
grown-link c [] q = refl
grown-link c (d ∷ ds) q = ground arith

release-link : (k : ℕ) (cs : List Cell) (q : ℕ) → link q (release k cs) ≡ link q cs
unfolding release
release-link k [] q = refl
release-link zero (c ∷ cs) q = joined-link (record c { free = 1 }) cs q
release-link (suc zero) (b ∷ []) q = refl
release-link (suc zero) (b ∷ c ∷ cs) q = grown-link b (joined (record c { free = 1 }) cs) q
release-link (suc (suc k)) (b ∷ cs) q = refl

release-total : (k : ℕ) (cs : List Cell) → total (release k cs) ≡ total cs
unfolding release
release-total k [] = refl
release-total zero (c ∷ cs) = joined-total (record c { free = 1 }) cs
release-total (suc zero) (b ∷ []) = refl
release-total (suc zero) (b ∷ c ∷ cs) = ground (
  arith,
  grown-total b (joined (record c { free = 1 }) cs),
  joined-total (record c { free = 1 }) cs,
)
release-total (suc (suc k)) (b ∷ cs) = ground (arith, release-total (suc k) cs)

-- The step for a block with one in front of it.
after-front :
    (b c : Cell) (cs : List Cell) (blocks : Array MemBlock) (prev p : ℕ)
    → IsChain blocks prev p (b ∷ c ∷ cs)
    → 0 < p
    → p + total (b ∷ c ∷ cs) < 2 ^ 32
    → IsChain (set_free blocks (p + b.size)) prev p (grown b (joined (record c { free = 1 }) cs))
      × ((x : ℕ) → x < p → set_free blocks (p + b.size) x ≡ blocks x)
after-front b c cs blocks prev p (here, pos, rest) start end =
    let m = p + b.size in
    let c1 = record c { free = 1 } in
    let (ch2, low2) =
      join_next-IsChain c1 cs (freed blocks m) p m (freed-IsChain c cs blocks p m rest)
        (omega arith) (omega arith) in
    let blocks2 = join_next (freed blocks m) m in
    let front : blocks2 p ≡ blocks p =
      low2 p (omega arith) ∙ freed-below blocks m p (omega arith) in
    let whole : IsChain blocks2 prev p (b ∷ joined c1 cs) =
      (rw (joined-link c1 cs m) (ground arith), pos, ch2) in
    let (ch3, low3) =
      join_prev-IsChain b (joined c1 cs) blocks2 prev p whole
        (rw (joined-total c1 cs) (omega arith)) start (rw (joined-total c1 cs) (omega arith)) in
    (ch3, λ x h. low3 x h ∙ low2 x (omega arith) ∙ freed-below blocks m x (omega arith))

release-IsChain :
    (k : ℕ) (cs : List Cell) (blocks : Array MemBlock) (prev p : ℕ)
    → IsChain blocks prev p cs
    → k < length cs
    → 0 < p
    → p + total cs < 2 ^ 32
    → (k ≡ 0 → prev ≡ 0)
    → IsChain (set_free blocks (address p k cs)) prev p (release k cs)
      × ((x : ℕ) → x < p → set_free blocks (address p k cs) x ≡ blocks x)
unfolding release address
release-IsChain k [] blocks prev p ch inside start end first = absurd (omega arith)
release-IsChain zero (c ∷ cs) blocks prev p (here, pos, rest) inside start end first =
    let c1 = record c { free = 1 } in
    let (ch2, low2) =
      join_next-IsChain c1 cs (freed blocks p) prev p
        (freed-IsChain c cs blocks prev p (here, pos, rest)) start (omega arith) in
    let blocks2 = join_next (freed blocks p) p in
    let alone = joined-prev c1 cs blocks2 prev p ch2 ∙ first refl in
    (
      IsChain-same (joined c1 cs) blocks2 (join_prev blocks2 p) prev p
          (λ a h. join_prev-first blocks2 p a alone) ch2,
      λ x h. join_prev-first blocks2 p x alone ∙ low2 x h ∙ freed-below blocks p x h,
    )
release-IsChain (suc zero) (b ∷ []) blocks prev p ch inside start end first = absurd (omega arith)
release-IsChain (suc zero) (b ∷ c ∷ cs) blocks prev p ch inside start end first =
    after-front b c cs blocks prev p ch start end
release-IsChain (suc (suc k)) (b ∷ cs) blocks prev p (here, pos, rest) inside start end first =
    let (ch, low) =
      release-IsChain (suc k) cs blocks p (p + b.size) rest (omega arith) (omega arith)
        (omega arith) (λ e. absurd (omega arith)) in
    (
      (ground (arith, low p, release-link (suc k) cs (p + b.size)), pos, ch),
      λ x h. low x (omega arith),
    )

pub address-le : (p k : ℕ) (cs : List Cell) → p ≤ address p k cs
unfolding address
address-le p zero cs = omega arith
address-le p (suc k) [] = omega arith
address-le p (suc k) (c ∷ cs) = omega (arith, address-le (p + c.size) k cs)

kfree-set_free :
    (header b : ℕ) (blocks : Array MemBlock)
    → 0 < b
    → b + header < 2 ^ 32
    → kfree header blocks (b + header) ≡ set_free blocks b
unfolding kfree freed
kfree-set_free header b blocks pos small =
    let block : sub32 (b + header) header ≡ b = omega arith in
    let some_ptr : (b + header == 0) ≡ false = ground arith in rw (some_ptr, block) refl

-- `kfree` of the pointer that is a header behind the start of a block, if that is below 2^32, sets
-- the block free and makes it one with the free blocks on both sides of it. The blocks still fill
-- the heap without a gap.
pub kfree-release :
    (header k p : ℕ) (blocks : Array MemBlock) (cs : List Cell)
    → IsHeap blocks p cs
    → k < length cs
    → address p k cs + header < 2 ^ 32
    → IsHeap (kfree header blocks (address p k cs + header)) p (release k cs)
      × (total (release k cs) ≡ total cs)
kfree-release header k p blocks cs v inside small =
    let kept = release-total k cs in
    (
      rw
          (kfree-set_free header (address p k cs) blocks (omega (arith, address-le p k cs, v.start))
            small)
          (record {
            chain = (release-IsChain k cs blocks 0 p v.chain inside v.start v.end (λ e. refl)).0;
            start = v.start;
            bytes = rw kept v.bytes;
            end = rw kept v.end;
          }),
      kept,
    )
