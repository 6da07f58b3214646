-- ===== src/Kernel/Tests.antt =====
-- kernel.c at concrete inputs.
use ea_x.Prelude.{
  ℕ, ◌/◌, ◌^◌, ◌≢◌, inl, inr, update, ◌+◌, ◌*◌, ◌≤◌, ◌<◌, ◌≡◌, refl, ◌&&◌, some, List, [], ◌∷◌,
  Array, leb, ltb, ◌==◌, if◌then◌else◌, arith,
}
use ea_x.Kernel.Syscalls.{Counters}
use ea_x.Kernel.Syscalls.Run.{Request, Given, run, CountsUp, run-CountsUp}
use ea_x.Kernel.Heap.{MemBlock, memory_init, first_fit, take_block, split, kmalloc, kfree}
use ea_x.Kernel.Heap.Chain.{Cell, total, IsHeap, memory_init-IsHeap}
use ea_x.Kernel.Heap.Allocate.{allocate, kmalloc-requested}
use ea_x.Kernel.Heap.Release.{joined, grown, release, address}
use ea_x.Kernel.Heap.Free.{kfree-release}
use ea_x.Kernel.Heap.RoundTrip.{kfree-kmalloc}
use ea_x.Prelude.Members.{has, without}
use ea_x.Kernel.Heap.Run.{Op, alloc, free}
use ea_x.Kernel.Heap.Run
use ea_x.Kernel.Heap.Clients.{Holds, run-Holds}
use ea_x.Kernel.Heap.Restored.{run-restored}
use ea_x.Kernel.Screen.{Screen, screen_init, screen_print}
use ea_x.Kernel.Screen.Bounds.{Fits, IsOnScreen, screen_print-IsOnScreen}
use ea_x.Kernel.Screen.Rows.{Shows, screen_print-Shows}

abbrev start : Counters
start = record { next_pid = 1; next_fd = 3 }

abbrev calling : ℕ → Request
calling n = record { syscall_num = n; a1 = 7; a2 = 8; a3 = 9 }

-- open, close, dup, fork, a number that is no call, and fork.
abbrev requests : List Request
requests = calling 3 ∷ calling 4 ∷ calling 17 ∷ calling 5 ∷ calling 28 ∷ calling 5 ∷ []

run-CountsUp_example :
    (g : Given) × (run start requests ≡ some g)
    × CountsUp 3 g.fds g.last.next_fd
    × CountsUp 1 g.pids g.last.next_pid
    × (g.last.next_pid ≤ 256)
run-CountsUp_example = run-CountsUp requests start (omega arith) (omega arith)

-- "ab", a line feed and "c" at address 100.
abbrev memory : Array ℕ
memory a =
    if a == 100
    then b'a'
    else if a == 101
    then b'b'
    else if a == 102
    then 10
    else if a == 103
    then b'c'
    else 0

-- A screen of five columns and two rows, at the start of its last row.
abbrev screen : Screen
screen = record { video_memory = λ i. i; cursor_x = 0; cursor_y = 1; screen_color = 160 }

fits : Fits 5 2
fits = record {
  wide = omega arith;
  high = omega arith;
  narrow = omega arith;
  low = omega arith;
  cells = omega arith;
}

screen-IsOnScreen : IsOnScreen 5 2 screen
screen-IsOnScreen = record { column = omega arith; row = omega arith }

screen_print-IsOnScreen_example :
    (s' : Screen) × (screen_print 5 2 5 memory 100 screen ≡ some s')
    × IsOnScreen 5 2 s'
    × ((a : ℕ) → s'.video_memory a ≡ (if leb 10 a then a else s'.video_memory a))
screen_print-IsOnScreen_example =
    screen_print-IsOnScreen 5 2 fits (b'a' ∷ b'b' ∷ 10 ∷ b'c' ∷ []) 5 memory 100 screen
      (omega arith) (omega arith) screen-IsOnScreen

-- The "c", at address 103.
screen_print-Shows_example :
    (s' : Screen) × (screen_print 5 2 2 memory 103 screen ≡ some s')
    × (s'.screen_color ≡ 160)
    × (s'.cursor_x ≡ 1)
    × (s'.cursor_y ≡ 1)
    × Shows s' 5 (b'c' ∷ [])
    × ((a : ℕ) → s'.video_memory a ≡ (if leb 5 a && ltb a 6 then s'.video_memory a else a))
screen_print-Shows_example =
    screen_print-Shows 5 2 fits (b'c' ∷ []) 2 memory 103 screen (omega arith) (omega arith)
      (omega arith) (omega arith) (omega arith)

initial : (screen_init screen).cursor_y ≡ 0
unfolding screen_init
initial = refl

abbrev no_block : MemBlock
no_block = record { size = 0; free = 0; next = 0; prev = 0 }

-- A heap of 4096 bytes at 8192. The header has 16 bytes.
abbrev started : Array MemBlock
started = (memory_init (λ a. no_block) 8192 4096).1

abbrev one_block : List Cell
one_block = record { size = 4096; free = 1 } ∷ []

started-IsHeap : IsHeap started 8192 one_block
unfolding memory_init
started-IsHeap =
    memory_init-IsHeap (λ a. no_block) 8192 4096 (omega arith) (omega arith) (omega arith)

abbrev align_16 : ℕ → ℕ
align_16 n = (n + 15) / 16 * 16

kmalloc-requested_example :
    (blocks' : Array MemBlock) × (kmalloc 16 align_16 2 8192 started 100 ≡ some (8208, blocks'))
    × IsHeap blocks' 8192 (record { size = 112; free = 0 } ∷ record { size = 3984; free = 1 } ∷ [])
    × (total (record { size = 112; free = 0 } ∷ record { size = 3984; free = 1 } ∷ []) ≡ 4096)
unfolding allocate
kmalloc-requested_example =
    kmalloc-requested align_16 16 2 100 8192 started one_block started-IsHeap (omega arith)
      (omega arith) (omega arith)

-- A block in use between two that are free.
abbrev three_blocks : List Cell
three_blocks =
    record { size = 32; free = 1 }
    ∷ record { size = 48; free = 0 }
    ∷ record { size = 64; free = 1 }
    ∷ []

abbrev three : Array MemBlock
three =
    update
      (update (update (λ a. no_block) 8192 (record { size = 32; free = 1; next = 8224; prev = 0 }))
        8224 (record { size = 48; free = 0; next = 8272; prev = 8192 }))
      8272 (record { size = 64; free = 1; next = 0; prev = 8224 })

three-IsHeap : IsHeap three 8192 three_blocks
three-IsHeap = record {
  chain = (refl, omega arith, (refl, omega arith, (refl, omega arith, tt)));
  start = omega arith;
  bytes = omega arith;
  end = omega arith;
}

-- All three become one.
kfree-release_example :
    IsHeap (kfree 16 three 8240) 8192 (record { size = 144; free = 1 } ∷ []) × (144 + 0 ≡ 144)
unfolding release joined grown address
kfree-release_example =
    kfree-release 16 1 8192 three three_blocks three-IsHeap (omega arith) (omega arith)

found : (allocate 16 (align_16 40) 8192 three_blocks).0 ≢ 0
unfolding allocate
found = omega arith

found_low : (allocate 16 (align_16 40) 8192 three_blocks).0 + 16 < 2 ^ 32
unfolding allocate
found_low = omega arith

kfree-kmalloc_example :
    (ptr : ℕ) × (blocks' : Array MemBlock) × (kmalloc 16 align_16 4 8192 three 40
      ≡ some (ptr, blocks'))
    × (ptr ≢ 0)
    × IsHeap (kfree 16 blocks' ptr) 8192 three_blocks
kfree-kmalloc_example =
    kfree-kmalloc align_16 16 4 40 8192 three three_blocks three-IsHeap
      ((inr refl, inr refl, (inl refl, inl refl, (inr refl, tt, tt)))) (omega arith) (omega arith)
      (omega arith) (omega arith) found found_low

started-Holds : Holds 16 8192 started [] one_block
started-Holds = record {
  heap = started-IsHeap;
  given = tt;
  apart = tt;
  merged = (inr refl, tt, tt);
  complete = (refl, tt);
  room = omega arith;
}

-- Two blocks, of which the first is freed again, a pointer that is not held, and 0 bytes.
run-Holds_example :
    (blocks' : Array MemBlock) × (held' : List ℕ) × (cs' : List Cell) × (Run.run align_16 16 10 8192
        started []
        (alloc 100 ∷ alloc 40 ∷ free 8208 ∷ free 4 ∷ alloc 0 ∷ [])
      ≡ some (blocks', held'))
    × Holds 16 8192 blocks' held' cs'
    × (total cs' ≡ 4096)
run-Holds_example =
    run-Holds align_16 16 10 8192 (alloc 100 ∷ alloc 40 ∷ free 8208 ∷ free 4 ∷ alloc 0 ∷ []) started
      [] one_block started-Holds (omega arith) (omega arith)

-- The first block is freed before the second.
abbrev balanced : List Op
balanced = alloc 100 ∷ alloc 40 ∷ free 8208 ∷ free 8320 ∷ []

abbrev given_back : Array MemBlock
given_back = kfree 16 (kfree 16 (take_block 16 (take_block 16 started 112 8192) 48 8304) 8208) 8320

ran_back : Run.run align_16 16 10 8192 started [] balanced ≡ some (given_back, [])
unfolding Run.run has without kmalloc first_fit take_block split memory_init
ran_back = refl

run-restored_example : given_back 8192 ≡ started 8192
run-restored_example =
    run-restored align_16 16 10 8192 4096 balanced (λ a. no_block) given_back (omega arith)
      (omega arith) (omega arith) (omega arith) (omega arith) ran_back
