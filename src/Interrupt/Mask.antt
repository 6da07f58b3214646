-- ===== src/Interrupt/Mask.antt =====
-- The bit of the mask, registration, and what a line then does.
use ea_x.Prelude.{
  ℕ, zero, suc, ◌+◌, ◌≡◌, Bool, ◌&&◌, true, false, not, Option, none, some, Array, update, arith,
  leb, ltb, ◌==◌, if◌then◌else◌, bit_and, bit_or,
}
use ea_x.Prelude.Bits.{bit, bit-bit_and, bit-bit_or, bit_and-pow}
use ea_x.Interrupt.{
  InterruptController, IrqHandler, irq_count, Line, timer, keyboard, cascade, com2, com1, lpt2,
  floppy, lpt1, rtc, reserved_9, reserved_10, reserved_11, mouse, fpu, ata_primary, ata_secondary,
  irq, register_irq_handler, mask_irq, all_but_one, disable_all_interrupts,
  interrupt_controller_init, clear_handlers,
}

masked-bit : (flags : ℕ) → bit_and flags 1 ≡ bit flags 0
masked-bit flags = omega (arith, bit_and-pow flags 0)

pub mask-flag : (flags : ℕ) → bit_and (bit_and flags all_but_one) 1 ≡ 0
unfolding bit
mask-flag flags =
    omega (arith, masked-bit (bit_and flags all_but_one), bit-bit_and flags all_but_one 0)

pub unmask-flag : (flags : ℕ) → bit_and (bit_or flags 1) 1 ≡ 1
unfolding bit
unmask-flag flags = omega (arith, masked-bit (bit_or flags 1), bit-bit_or flags 1 0)

abbrev pub number : Line → ℕ
number timer = 0
number keyboard = 1
number cascade = 2
number com2 = 3
number com1 = 4
number lpt2 = 5
number floppy = 6
number lpt1 = 7
number rtc = 8
number reserved_9 = 9
number reserved_10 = 10
number reserved_11 = 11
number mouse = 12
number fpu = 13
number ata_primary = 14
number ata_secondary = 15

-- The lines whose routine looks for a handler.
abbrev pub is_served : Line → Bool
is_served timer = true
is_served keyboard = true
is_served floppy = true
is_served rtc = true
is_served mouse = true
is_served ata_primary = true
is_served ata_secondary = true
is_served _ = false

-- A registered handler is called with the number of its line, by the lines that are served only: on
-- the nine others `register_irq_handler` takes a handler that no interrupt ever calls.
irq-register :
    (l : Line) (c : InterruptController) (handler : ℕ) (name : Option (Array ℕ))
    → (irq l (register_irq_handler c (number l) handler name)).1
      ≡ (if is_served l && not (handler == 0) then some (handler, number l) else none)
unfolding irq register_irq_handler
irq-register timer c handler name = ground arith
irq-register _ c handler name = ground arith

-- Neither the mask of a line nor the global switch keeps an interrupt from its handler.
irq-masked :
    (l : Line) (c : InterruptController) (i : ℕ)
    → (irq l (disable_all_interrupts (mask_irq c i))).1 ≡ (irq l c).1
unfolding irq mask_irq disable_all_interrupts
irq-masked timer c i = ground arith
irq-masked _ c i = ground arith

clear_handlers-range :
    (rounds i : ℕ) (handlers : Array IrqHandler) (j : ℕ)
    → clear_handlers rounds i handlers j ≡ (
        if leb i j && ltb j (i + rounds)
        then record (handlers j) { irq_number = j; handler = 0; handled_count = 0 }
        else handlers j)
unfolding clear_handlers
clear_handlers-range zero i handlers j = ground arith
clear_handlers-range (suc rounds) i handlers j = ground (
  arith,
  clear_handlers-range rounds (suc i)
      (update handlers i (record (handlers i) { irq_number = i; handler = 0; handled_count = 0 }))
      j,
)

-- The initialisation numbers the 16 entries, clears their handlers and counts, and leaves their names
-- and flags as they were.
interrupt_controller_init-handlers :
    (c : InterruptController) (j : ℕ)
    → (interrupt_controller_init c).handlers j ≡ (
        if ltb j irq_count
        then record (c.handlers j) { irq_number = j; handler = 0; handled_count = 0 }
        else c.handlers j)
unfolding interrupt_controller_init
interrupt_controller_init-handlers c j =
    ground (arith, clear_handlers-range irq_count 0 c.handlers j)
