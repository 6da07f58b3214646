-- ===== src/Kernel/Heap/Run.antt =====
-- Sequences of kmalloc and kfree, by a client that frees what it holds.
use ea_x.Prelude.{
  ℕ, ◌+◌, ◌≤◌, ◌<◌, ◌^◌, ◌≡◌, ◌≢◌, refl, inl, inr, true, false, Option, none, some, List, [], ◌∷◌,
  ◌==◌, if◌then◌else◌, arith, Bool-cases, Array,
}
use ea_x.Kernel.Heap.{MemBlock, kmalloc, kfree}
use ea_x.Kernel.Heap.Chain.{Cell}
use ea_x.Kernel.Heap.Allocate.{allocate}
use ea_x.Kernel.Heap.Release.{release, address}
use ea_x.Prelude.Members.{has, without}
use ea_x.Kernel.Heap.InUse.{InUse, InUse-allocate, InUse-release}

pub data Op : Type 0 where
  alloc : (size : ℕ) → Op
  free : (ptr : ℕ) → Op

-- The blocks and the pointers held after the calls. A pointer that is not held is not freed.
unfoldable pub run :
    (ℕ → ℕ)
    → (header fuel p : ℕ) → Array MemBlock
    → List ℕ
    → List Op
    → Option (Array MemBlock × List ℕ)
run align_up header fuel p blocks held [] = some (blocks, held)
run align_up header fuel p blocks held (alloc size ∷ ops) =
    elim (kmalloc header align_up fuel p blocks size) [
      | none ↦ none
      | some (ptr, blocks') ↦
          run align_up header fuel p blocks' (if ptr == 0 then held else ptr ∷ held) ops
    ]
run align_up header fuel p blocks held (free ptr ∷ ops) = elim (has ptr held) [
  | true ↦ run align_up header fuel p (kfree header blocks ptr) (without ptr held) ops
  | false ↦ run align_up header fuel p blocks held ops
]

-- The pointer is that of a block in use.
abbrev pub Given : (header p : ℕ) → List Cell → ℕ → Type 0
Given header p cs ptr = (a : ℕ) × (ptr ≡ a + header) × InUse p cs a

abbrev pub AllGiven : (header p : ℕ) → List Cell → List ℕ → Type 0
AllGiven header p cs [] = Unit {0}
AllGiven header p cs (ptr ∷ ptrs) = Given header p cs ptr × AllGiven header p cs ptrs

-- The rounding of every request is right and does not come near 2^32.
abbrev pub AllModest : (ℕ → ℕ) → ℕ → List Op → Type 0
AllModest align_up header [] = Unit {0}
AllModest align_up header (alloc size ∷ ops) =
    ((size ≤ align_up size) × (align_up size + header + 16 < 2 ^ 32))
    × AllModest align_up header ops
AllModest align_up header (free ptr ∷ ops) = AllModest align_up header ops

pub has-Given :
    (header p ptr : ℕ) (cs : List Cell) (held : List ℕ)
    → AllGiven header p cs held
    → has ptr held ≡ true
    → Given header p cs ptr
unfolding has
has-Given header p ptr cs [] v e = ground arith
has-Given header p ptr cs (q ∷ held) ((a, at, u), v) e = elim (Bool-cases (ptr == q)) [
  | inl same ↦ (a, ground arith, u)
  | inr other ↦ has-Given header p ptr cs held v (rw other at e)
]

pub allocate-AllGiven :
    (header size p : ℕ) (cs : List Cell) (held : List ℕ)
    → 0 < size
    → AllGiven header p cs held
    → AllGiven header p (allocate header size p cs).1 held
allocate-AllGiven header size p cs [] pos v = tt
allocate-AllGiven header size p cs (q ∷ held) pos ((a, at, u), v) = (
  (a, at, InUse-allocate header size pos cs p a u),
  allocate-AllGiven header size p cs held pos v,
)

pub release-AllGiven :
    (header k p : ℕ) (cs : List Cell) (held : List ℕ)
    → AllGiven header p cs held
    → AllGiven header p (release k cs) (without (address p k cs + header) held)
unfolding without
release-AllGiven header k p cs [] v = tt
release-AllGiven header k p cs (q ∷ held) ((a, at, u), v) =
    let rest = release-AllGiven header k p cs held v in
    elim (Bool-cases (address p k cs + header == q)) [
      | inl same ↦ rw same rest
      | inr other ↦ rw other ((a, at, InUse-release k cs p a u (ground arith)), rest)
    ]

-- The pointer of a block that is not in use is not held.
pub has-fresh :
    (header p a : ℕ) (cs : List Cell) (held : List ℕ)
    → AllGiven header p cs held
    → ((b : ℕ) → InUse p cs b → a ≢ b)
    → has (a + header) held ≡ false
unfolding has
has-fresh header p a cs [] v fresh = refl
has-fresh header p a cs (q ∷ held) ((b, at, u), v) fresh =
    let rest = has-fresh header p a cs held v fresh in let other : a ≢ b = fresh b u in ground arith
