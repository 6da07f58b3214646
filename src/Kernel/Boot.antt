-- ===== src/Kernel/Boot.antt =====
-- kernel.c: kernel_main, which brings up the other parts of the system.
--
-- A message is the text of a literal, printed character by character, as `screen_print` does with a text
-- in memory. sti and hlt, which are not in the repository, are left out. The loop of the prompt never
-- ends; `rounds` is the number of prompts so far.
pub mod Ready
mod Tests
use Prim.Native.String.{String}
use ea_x.Prelude.{ℕ, zero, suc, List, [], ◌∷◌, Array}
use ea_x.Prelude.Texts.{codes}
use ea_x.Kernel.Screen.{Screen, screen_init, screen_clear, screen_putchar}
use ea_x.Kernel.Heap.{MemBlock, memory_init}
use ea_x.Storage.{StorageController, storage_init}
use ea_x.Network.{NetworkStack, network_init}
use ea_x.Graphics.{GraphicsContext, graphics_init}
use ea_x.Input.{InputManager, input_init}

-- The statics of the kernel and of the drivers.
pub record Machine : Type 0 where
  pub screen : Screen
  pub heap_start : ℕ
  pub blocks : Array MemBlock
  pub storage : StorageController
  pub network : NetworkStack
  pub graphics : GraphicsContext
  pub input : InputManager

pub data Action : Type 0 where
  say : String → Action
  init_gdt init_idt init_memory init_storage init_network init_graphics init_input init_fs : Action
  init_security init_system : Action

-- The messages and the calls before the prompt.
abbrev pub start_up : List Action
start_up =
    say "\n\r"
    ∷ say "  eaX OS Kernel v1.0.0 - Fortress\n\r"
    ∷ say "\n\r"
    ∷ say "[*] Initializing GDT..."
    ∷ init_gdt
    ∷ say " OK\n\r"
    ∷ say "[*] Initializing IDT..."
    ∷ init_idt
    ∷ say " OK\n\r"
    ∷ say "[*] Initializing Memory..."
    ∷ init_memory
    ∷ say " OK\n\r"
    ∷ say "[*] Initializing Storage..."
    ∷ init_storage
    ∷ say " OK\n\r"
    ∷ say "[*] Initializing Network..."
    ∷ init_network
    ∷ say " OK\n\r"
    ∷ say "[*] Initializing Graphics..."
    ∷ init_graphics
    ∷ say " OK\n\r"
    ∷ say "[*] Initializing Input..."
    ∷ init_input
    ∷ say " OK\n\r"
    ∷ say "[*] Initializing File System..."
    ∷ init_fs
    ∷ say " OK\n\r"
    ∷ say "[*] Initializing Security..."
    ∷ init_security
    ∷ say " OK\n\r"
    ∷ say "[*] Initializing System..."
    ∷ init_system
    ∷ say " OK\n\r"
    ∷ say "\n\r[OK] Boot completed!\n\r"
    ∷ say "  Memory: 16GB DDR5\n\r"
    ∷ say "  Graphics: eaX 164MB GPU\n\r"
    ∷ say "  Storage: 189GB NVMe\n\r"
    ∷ say "  Network: Gigabit Ethernet + Wi-Fi\n\r"
    ∷ say "  Compatibility: Intel/AMD/Mac\n\r"
    ∷ say "  AI Protection: Fortress ACTIVE\n\r"
    ∷ say "\n\r"
    ∷ []

-- The functions with an empty body.
abbrev gdt_init : Machine → Machine
gdt_init m = m

abbrev idt_init : Machine → Machine
idt_init m = m

abbrev fs_init : Machine → Machine
fs_init m = m

abbrev security_init : Machine → Machine
security_init m = m

abbrev system_init : Machine → Machine
system_init m = m

module _ (width height : ℕ) where
  unfoldable pub print : List ℕ → Screen → Screen
  print [] s = s
  print (c ∷ cs) s = print cs (screen_putchar width height s c)

  module _ (heap_current heap_bytes : ℕ) where
    unfoldable pub act : Machine → Action → Machine
    unfolding codes
    act m (say message) = record m { screen = print (codes message) m.screen }
    act m init_memory =
        let (start, blocks') = memory_init m.blocks heap_current heap_bytes in
        record m { heap_start = start; blocks = blocks' }
    act m init_storage = record m { storage = storage_init m.storage }
    act m init_network = record m { network = network_init m.network }
    act m init_graphics = record m { graphics = graphics_init }
    act m init_input = record m { input = input_init m.input }
    act m init_gdt = gdt_init m
    act m init_idt = idt_init m
    act m init_fs = fs_init m
    act m init_security = security_init m
    act m init_system = system_init m

    unfoldable pub act_all : Machine → List Action → Machine
    act_all m [] = m
    act_all m (a ∷ actions) = act_all (act m a) actions

    unfoldable pub prompts : ℕ → Machine → Machine
    prompts zero m = m
    prompts (suc rounds) m = prompts rounds (act m (say "eaX> "))

    unfoldable pub kernel_main : (rounds : ℕ) → Machine → Machine
    unfolding act act_all prompts
    kernel_main rounds m =
        let cleared = record m { screen = screen_clear width height (screen_init m.screen) } in
        prompts rounds (act_all cleared start_up)
