-- ===== src/Kernel/Heap/Clients.antt =====
-- What a client of the heap may rely on.
use ea_x.Prelude.{
  ℕ, suc, ◌+◌, ◌≤◌, ◌<◌, ◌^◌, ◌≡◌, refl, ◌∙◌, inl, inr, true, false, some, List, [], ◌∷◌, ◌==◌,
  length, if◌then◌else◌, arith, Bool-cases, Array, u32,
}
use ea_x.Prelude.Members.{has, without, IsDistinct, without-IsDistinct}
use ea_x.Kernel.Heap.{MemBlock, kmalloc, kfree}
use ea_x.Kernel.Heap.Chain.{Cell, total, IsHeap}
use ea_x.Kernel.Heap.Allocate.{allocate, allocate-none, kmalloc-requested}
use ea_x.Kernel.Heap.Release.{release, address}
use ea_x.Kernel.Heap.Free.{kfree-release}
use ea_x.Kernel.Heap.InUse.{
  InUse-le, InUse-address, allocate-InUse, allocate-length, allocate-fresh, release-length,
}
use ea_x.Kernel.Heap.Merged.{IsMerged, allocate-IsMerged, release-IsMerged}
use ea_x.Kernel.Heap.Held.{AllHeld, allocate-AllHeld, release-AllHeld}
use ea_x.Kernel.Heap.Run.{
  Op, alloc, free, run, AllGiven, AllModest, has-Given, allocate-AllGiven, release-AllGiven,
  has-fresh,
}

-- What holds between two calls.
pub record Holds (header p : ℕ) (blocks : Array MemBlock) (held : List ℕ) (cs : List Cell)
    : Type 0 where
  pub heap : IsHeap blocks p cs
  pub given : AllGiven header p cs held
  pub apart : IsDistinct held
  pub merged : IsMerged cs
  pub complete : AllHeld header held p cs
  pub room : p + total cs + header < 2 ^ 32

module _ (align_up : ℕ → ℕ) (header fuel p : ℕ) where
  alloc-Holds :
      (size : ℕ) (blocks : Array MemBlock) (held : List ℕ) (cs : List Cell)
      → Holds header p blocks held cs
      → size ≤ align_up size
      → align_up size + header + 16 < 2 ^ 32
      → length cs < fuel
      → (ptr : ℕ) × (blocks' : Array MemBlock) × (cs' : List Cell) × (kmalloc header align_up fuel p
            blocks size
          ≡ some (ptr, blocks'))
        × Holds header p blocks' (if ptr == 0 then held else ptr ∷ held) cs'
        × (total cs' ≡ total cs)
        × (length cs' ≤ suc (length cs))
  alloc-Holds size blocks held cs v rounded no_wrap enough =
      let asked = align_up size in
      let (blocks', ran, heap', kept) =
        kmalloc-requested align_up header fuel size p blocks cs v.heap enough rounded no_wrap in
      elim (Bool-cases (size == 0)) [
        | inl nothing ↦ (
          0,
          blocks',
          cs,
          rw nothing at ran,
          record {
            heap = rw nothing at heap';
            given = v.given;
            apart = v.apart;
            merged = v.merged;
            complete = v.complete;
            room = v.room;
          },
          refl,
          omega arith,
        )
        | inr something ↦
            let (a, xs) = allocate header asked p cs in
            let kept' = rw something at kept in
            let pos : 0 < asked = ground arith in
            let given' = allocate-AllGiven header asked p cs held pos v.given in
            let shorter = allocate-length header asked pos cs p in
            let unchanged = λ (e : (a == 0) ≡ true).
              allocate-none header asked pos no_wrap cs p v.heap.start (ground arith) in
            elim (Bool-cases (a == 0)) [
              | inl none_fits ↦ (
                0,
                blocks',
                xs,
                rw (something, none_fits) at ran,
                record {
                  heap = rw something at heap';
                  given = given';
                  apart = v.apart;
                  merged = allocate-IsMerged header asked cs p v.merged;
                  complete = rw (unchanged none_fits) v.complete;
                  room = rw kept' v.room;
                },
                kept',
                shorter,
              )
              | inr fit ↦
                  let used = allocate-InUse header asked pos cs p (ground arith) in
                  let low : a + header < 2 ^ 32 =
                    omega (arith, InUse-le xs p a used, kept', v.room) in
                  let same : u32 (a + header) ≡ a + header = omega arith in
                  let some_ptr : (a + header == 0) ≡ false = ground arith in
                  (
                    a + header,
                    blocks',
                    xs,
                    rw (something, fit, same) at ran,
                    rw some_ptr (record {
                      heap = rw something at heap';
                      given = ((a, refl, used), given');
                      apart = (
                        has-fresh header p a cs held v.given (λ b u.
                            allocate-fresh header asked pos cs blocks 0 p b v.heap.chain u
                              (ground arith)),
                        v.apart,
                      );
                      merged = allocate-IsMerged header asked cs p v.merged;
                      complete =
                          allocate-AllHeld header asked held cs p pos v.complete (ground arith);
                      room = rw kept' v.room;
                    }),
                    kept',
                    shorter,
                  )
            ]
      ]

  free-Holds :
      (ptr : ℕ) (blocks : Array MemBlock) (held : List ℕ) (cs : List Cell)
      → Holds header p blocks held cs
      → has ptr held ≡ true
      → (cs' : List Cell) × Holds header p (kfree header blocks ptr) (without ptr held) cs'
        × (total cs' ≡ total cs)
        × (length cs' ≤ length cs)
  free-Holds ptr blocks held cs v holds =
      let (a, e, used) = has-Given header p ptr cs held v.given holds in
      let (k, inside, at) = InUse-address cs p a used in
      let same : address p k cs + header ≡ ptr = omega arith in
      let (heap', kept) =
        kfree-release header k p blocks cs v.heap inside
          (omega (arith, InUse-le cs p a used, v.room)) in
      (
        release k cs,
        record {
          heap = rw same at heap';
          given = rw same at (release-AllGiven header k p cs held v.given);
          apart = without-IsDistinct ptr held v.apart;
          merged = release-IsMerged k cs v.merged;
          complete =
              rw same at (release-AllHeld header k held cs blocks 0 p v.heap.chain v.complete);
          room = rw kept v.room;
        },
        kept,
        release-length k cs,
      )

  -- Start from a heap whose blocks fill it without a gap, where no two free blocks lie side by side,
  -- where the pointers that the client holds are distinct and are those of the blocks in use, each
  -- of them and no other, and where the end lies a header below 2^32. Then every
  -- sequence of `kmalloc`, and of `kfree` on pointers that the client holds, runs to its end with
  -- fuel above the number of blocks and calls, if the rounding neither lowers a request nor comes
  -- near 2^32, and all this holds again, for as many bytes as before: no block is given to a client
  -- twice, and none is lost.
  pub run-Holds :
      (ops : List Op) (blocks : Array MemBlock) (held : List ℕ) (cs : List Cell)
      → Holds header p blocks held cs
      → AllModest align_up header ops
      → length cs + length ops < fuel
      → (blocks' : Array MemBlock) × (held' : List ℕ) × (cs' : List Cell) × (run align_up header
            fuel p blocks held ops
          ≡ some (blocks', held'))
        × Holds header p blocks' held' cs'
        × (total cs' ≡ total cs)
  unfolding run
  run-Holds [] blocks held cs v modest enough = (blocks, held, cs, refl, v, refl)
  run-Holds (alloc size ∷ ops) blocks held cs v ((rounded, no_wrap), modest) enough =
      let (ptr, blocks1, cs1, made, v1, kept1, le) =
        alloc-Holds size blocks held cs v rounded no_wrap (omega arith) in
      let (blocks', held', cs', ran, v', kept) =
        run-Holds ops blocks1 (if ptr == 0 then held else ptr ∷ held) cs1 v1 modest (omega arith) in
      (blocks', held', cs', rw (made, run) ran, v', kept ∙ kept1)
  run-Holds (free ptr ∷ ops) blocks held cs v modest enough = elim (Bool-cases (has ptr held)) [
    | inl holds ↦
        let (cs1, v1, kept1, le) = free-Holds ptr blocks held cs v holds in
        let (blocks', held', cs', ran, v', kept) =
          run-Holds ops (kfree header blocks ptr) (without ptr held) cs1 v1 modest (omega arith) in
        (blocks', held', cs', rw (holds, run) ran, v', kept ∙ kept1)
    | inr other ↦
        let (blocks', held', cs', ran, v', kept) =
          run-Holds ops blocks held cs v modest (omega arith) in
        (blocks', held', cs', rw (other, run) ran, v', kept)
  ]
