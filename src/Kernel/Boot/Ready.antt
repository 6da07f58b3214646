-- ===== src/Kernel/Boot/Ready.antt =====
-- What kernel_main leaves when it prompts.
use ea_x.Prelude.{
  ℕ, zero, suc, ◌+◌, ◌<◌, ◌^◌, ◌≡◌, refl, ap, ◌∙◌, some, List, [], ◌∷◌, Array, length, ltb,
  if◌then◌else◌, arith,
}
use ea_x.Stdlib.{Text}
use ea_x.Kernel.Screen.{Screen, screen_init, screen_clear, screen_putchar, screen_print}
use ea_x.Kernel.Screen.Bounds.{Fits, IsOnScreen, putchar-IsOnScreen}
use ea_x.Kernel.Heap.{memory_init}
use ea_x.Kernel.Heap.Chain.{IsHeap, memory_init-IsHeap}
use ea_x.Prelude.Texts.{codes}
use ea_x.Kernel.Boot.{
  Machine, Action, say, init_gdt, init_idt, init_memory, init_storage, init_network, init_graphics,
  init_input, init_fs, init_security, init_system, print, act, act_all, prompts, start_up,
  kernel_main,
}
use ea_x.Storage.{StorageController, storage_init, storage_read_sector}
use ea_x.Network.{NetworkStack, network_init, network_send_packet}
use ea_x.Graphics.{graphics_init}
use ea_x.Graphics.Vram.{IsConsistent, init-IsConsistent}
use ea_x.Input.{InputManager, input_init, input_get_event}

-- `print` is what `screen_print` does on a text in memory.
screen_print-print :
    (width height : ℕ) (cs : List ℕ) (fuel : ℕ) (ram : Array ℕ) (str : ℕ) (s : Screen)
    → Text ram str cs
    → length cs < fuel
    → screen_print width height fuel ram str s ≡ some (print width height cs s)
unfolding screen_print print
screen_print-print width height cs zero ram str s t h = absurd (omega arith)
screen_print-print width height [] (suc fuel) ram str s t h = ground arith
screen_print-print width height (c ∷ cs) (suc fuel) ram str s (first, pos, rest) h = ground (
  arith,
  screen_print-print width height cs fuel ram (suc str) (screen_putchar width height s c) rest,
)

init-reads :
    (s : StorageController) (drive sector : ℕ)
    → storage_read_sector (storage_init s) drive sector 0 ≡ (if ltb drive 2 then 4096 else 0)
unfolding storage_read_sector storage_init
init-reads s drive sector = ground arith

init-sends : (n : NetworkStack) (size : ℕ) → (network_send_packet (network_init n) 0 size).0 ≡ size
unfolding network_send_packet network_init
init-sends n size = ground arith

init-waits : (m : InputManager) → (input_get_event (input_init m)).0 ≡ 0
unfolding input_get_event input_init
init-waits m = refl

module _ (width height heap_current heap_bytes : ℕ) (fits : Fits width height) where
  abbrev OnScreen : Machine → Type 0
  OnScreen m = IsOnScreen width height m.screen

  print-IsOnScreen :
      (cs : List ℕ) (s : Screen)
      → IsOnScreen width height s
      → IsOnScreen width height (print width height cs s)
  unfolding print
  print-IsOnScreen [] s v = v
  print-IsOnScreen (c ∷ cs) s v =
      print-IsOnScreen cs (screen_putchar width height s c)
        (putchar-IsOnScreen width height fits s c v)

  act-OnScreen :
      (a : Action) (m : Machine)
      → OnScreen m
      → OnScreen (act width height heap_current heap_bytes m a)
  unfolding act
  act-OnScreen (say message) m v = print-IsOnScreen (codes message) m.screen v
  act-OnScreen init_gdt m v = v
  act-OnScreen init_idt m v = v
  act-OnScreen init_memory m v = v
  act-OnScreen init_storage m v = v
  act-OnScreen init_network m v = v
  act-OnScreen init_graphics m v = v
  act-OnScreen init_input m v = v
  act-OnScreen init_fs m v = v
  act-OnScreen init_security m v = v
  act-OnScreen init_system m v = v

  act_all-OnScreen :
      (actions : List Action) (m : Machine)
      → OnScreen m
      → OnScreen (act_all width height heap_current heap_bytes m actions)
  unfolding act_all
  act_all-OnScreen [] m v = v
  act_all-OnScreen (a ∷ actions) m v =
      act_all-OnScreen actions (act width height heap_current heap_bytes m a) (act-OnScreen a m v)

  prompts-OnScreen :
      (rounds : ℕ) (m : Machine)
      → OnScreen m
      → OnScreen (prompts width height heap_current heap_bytes rounds m)
  unfolding prompts
  prompts-OnScreen zero m v = v
  prompts-OnScreen (suc rounds) m v =
      prompts-OnScreen rounds (act width height heap_current heap_bytes m (say "eaX> "))
        (act-OnScreen (say "eaX> ") m v)

  -- The prompts change the screen only.
  prompts-rest :
      (rounds : ℕ) (m : Machine)
      → prompts width height heap_current heap_bytes rounds m
        ≡ record m { screen = (prompts width height heap_current heap_bytes rounds m).screen }
  unfolding prompts act
  prompts-rest zero m = refl
  prompts-rest (suc rounds) m =
      prompts-rest rounds (act width height heap_current heap_bytes m (say "eaX> "))

  -- What the messages and the calls before the prompt leave, but for the screen.
  started :
      (m : Machine)
      → let m' = act_all width height heap_current heap_bytes m start_up in
        m' ≡ record {
          screen = m'.screen;
          heap_start = (memory_init m.blocks heap_current heap_bytes).0;
          blocks = (memory_init m.blocks heap_current heap_bytes).1;
          storage = storage_init m.storage;
          network = network_init m.network;
          graphics = graphics_init;
          input = input_init m.input;
        }
  unfolding act_all act
  started m = refl

  cleared-IsOnScreen :
      (s : Screen) → IsOnScreen width height (screen_clear width height (screen_init s))
  unfolding screen_clear
  cleared-IsOnScreen s = record { column = fits.wide; row = fits.high }

  -- Whenever the kernel prompts, for a heap that ends below 2^32 and a screen that has a cell and whose cells an int counts: the cursor is on
  -- the screen; the heap is one free block; reads reach the disk drives 0 and 1, and no other; packets are
  -- sent, whatever their length; the graphics mode and the video memory are consistent; and no input event
  -- waits.
  pub kernel_main-ready :
      (rounds : ℕ) (m : Machine) (drive sector size : ℕ)
      → 0 < heap_current
      → 0 < heap_bytes
      → heap_current + heap_bytes < 2 ^ 32
      → let m' = kernel_main width height heap_current heap_bytes rounds m in
        IsOnScreen width height m'.screen
        × IsHeap m'.blocks m'.heap_start (record { size = heap_bytes; free = 1 } ∷ [])
        × (storage_read_sector m'.storage drive sector 0 ≡ (if ltb drive 2 then 4096 else 0))
        × ((network_send_packet m'.network 0 size).0 ≡ size)
        × IsConsistent m'.graphics
        × ((input_get_event m'.input).0 ≡ 0)
  unfolding kernel_main
  kernel_main-ready rounds m drive sector size start some_bytes end =
      let cleared = record m { screen = screen_clear width height (screen_init m.screen) } in
      let before = act_all width height heap_current heap_bytes cleared start_up in
      let after = prompts width height heap_current heap_bytes rounds before in
      let shape =
        prompts-rest rounds before
        ∙ ap (λ (b : Machine). record b { screen = after.screen }) (started cleared) in
      let storage : after.storage ≡ storage_init m.storage =
        ap (λ (b : Machine). b.storage) shape in
      let network : after.network ≡ network_init m.network =
        ap (λ (b : Machine). b.network) shape in
      let graphics : after.graphics ≡ graphics_init = ap (λ (b : Machine). b.graphics) shape in
      let input : after.input ≡ input_init m.input = ap (λ (b : Machine). b.input) shape in
      let blocks : after.blocks ≡ (memory_init m.blocks heap_current heap_bytes).1 =
        ap (λ (b : Machine). b.blocks) shape in
      let heap_start : after.heap_start ≡ (memory_init m.blocks heap_current heap_bytes).0 =
        ap (λ (b : Machine). b.heap_start) shape in
      (
        prompts-OnScreen rounds before
            (act_all-OnScreen start_up cleared (cleared-IsOnScreen m.screen)),
        rw (blocks, heap_start)
            (memory_init-IsHeap m.blocks heap_current heap_bytes start some_bytes end),
        rw storage (init-reads m.storage drive sector),
        rw network (init-sends m.network size),
        rw graphics init-IsConsistent,
        rw input (init-waits m.input),
      )
