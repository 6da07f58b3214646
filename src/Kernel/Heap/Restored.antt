-- ===== src/Kernel/Heap/Restored.antt =====
-- A heap from which everything has been given back.
use mathlib.Core.Option.{some-injective}
use ea_x.Prelude.{
  ap, sym, refl, ◌∙◌, ℕ, suc, ◌+◌, ◌<◌, ◌≡◌, ◌^◌, ◌||◌, ◌⊎◌, inr, true, some, Array, List, [], ◌∷◌,
  length, arith,
}
use ea_x.Prelude.Members.{has}
use ea_x.Kernel.Heap.{MemBlock, memory_init, is_free}
use ea_x.Kernel.Heap.Chain.{Cell, total, memory_init-IsHeap}
use ea_x.Kernel.Heap.Merged.{IsMerged}
use ea_x.Kernel.Heap.Held.{AllHeld}
use ea_x.Kernel.Heap.Run.{Op, AllModest, run}
use ea_x.Kernel.Heap.Clients.{Holds, run-Holds}

held-free :
    (header a : ℕ) (c : Cell)
    → is_free c.free || has a [] ≡ true
    → (c.free ≡ 0) ⊎ (c.free ≡ 1)
    → c.free ≡ 1
unfolding has
held-free header a c e mark = ground arith

one_block :
    (header p : ℕ) (cs : List Cell)
    → IsMerged cs
    → AllHeld header [] p cs
    → 0 < total cs
    → cs ≡ record { size = total cs; free = 1 } ∷ []
one_block header p [] v held bytes = absurd (omega arith)
one_block header p (c ∷ []) (mark, guard, v) (here, held) bytes =
    let e = held-free header (p + header) c here mark in ground arith
one_block header p (c ∷ d ∷ ds) (mark, guard, (mark', guard', v)) (here, (next, held)) bytes =
    let e = held-free header (p + header) c here mark in
    let e' = held-free header (p + c.size + header) d next mark' in absurd (ground arith)

-- If any calls of `kmalloc`, and of `kfree` on pointers that the client holds, from the start of the
-- heap on, end with nothing held, the heap is one free block of all its bytes again, as `memory_init`
-- left it. The heap lies above 0 and ends a header below 2^32, the rounding neither lowers a request
-- nor comes near 2^32, and the fuel is above one more than the number of calls.
pub run-restored :
    (align_up : ℕ → ℕ) (header fuel p size : ℕ) (ops : List Op) (ram blocks' : Array MemBlock)
    → 0 < p
    → 0 < size
    → p + size + header < 2 ^ 32
    → AllModest align_up header ops
    → suc (length ops) < fuel
    → run align_up header fuel p (memory_init ram p size).1 [] ops ≡ some (blocks', [])
    → blocks' p ≡ (memory_init ram p size).1 p
unfolding memory_init
run-restored align_up header fuel p size ops ram blocks' low bytes end modest enough ran =
    let first : Cell = record { size = size; free = 1 } in
    let start = (memory_init ram p size).1 in
    let heap = memory_init-IsHeap ram p size low bytes (omega arith) in
    let holds : Holds header p start [] (first ∷ []) = record {
      heap = heap;
      given = tt;
      apart = tt;
      merged = (inr refl, tt, tt);
      complete = (refl, tt);
      room = omega arith;
    } in
    let (blocks1, held1, cs1, ran1, v, kept) =
      run-Holds align_up header fuel p ops start [] (first ∷ []) holds modest (omega arith) in
    let both = some-injective (blocks1, held1) (blocks', []) (sym ran1 ∙ ran) in
    let same : blocks1 ≡ blocks' = ap (λ x. x.0) both in
    let nothing : held1 ≡ [] = ap (λ x. x.1) both in
    let alone = one_block header p cs1 v.merged (rw nothing at v.complete) v.heap.bytes in
    let chain = rw (alone, kept, same) at v.heap.chain in let now = chain.0 in ground arith
