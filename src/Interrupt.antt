-- ===== src/Interrupt.antt =====
-- ipts.c: exceptions, hardware interrupts and the table of their handlers.
--
-- A handler is code outside this file, known by its address, and NULL is 0. Where the source calls
-- one, as the last thing that it does, the model returns the call: the handler and its argument.
pub mod Count
pub mod Calls
pub mod Mask
pub mod Masked
mod Tests
use ea_x.Prelude.{
  ℕ, zero, suc, ◌+◌, ◌-◌, ◌^◌, ◌≡◌, Bool, ◌&&◌, true, false, Option, none, some, List, [], ◌∷◌,
  Array, update, u32, leb, ◌==◌, if◌then◌else◌, bit_and, bit_or, copy_string,
}

abbrev pub irq_count : ℕ
irq_count = 16

pub record IrqHandler : Type 0 where
  pub irq_number : ℕ
  pub handler : ℕ
  pub flags : ℕ
  pub handled_count : ℕ
  pub name : Array ℕ

pub record InterruptController : Type 0 where
  pub handlers : Array IrqHandler
  pub total_interrupts : ℕ
  pub interrupts_disabled : ℕ
  pub spurious_interrupts : ℕ
  pub interrupt_latency_max : ℕ
  pub interrupt_latency_avg : ℕ

-- `for (i = from; i < from + rounds; i++)` of the initialisation.
clear_handlers : ℕ → ℕ → Array IrqHandler → Array IrqHandler
clear_handlers zero i handlers = handlers
clear_handlers (suc rounds) i handlers =
    clear_handlers rounds (suc i)
      (update handlers i (record (handlers i) { irq_number = i; handler = 0; handled_count = 0 }))

pub interrupt_controller_init : InterruptController → InterruptController
unfolding clear_handlers
interrupt_controller_init c = record {
  handlers = clear_handlers irq_count 0 c.handlers;
  total_interrupts = 0;
  interrupts_disabled = 0;
  spurious_interrupts = 0;
  interrupt_latency_max = 0;
  interrupt_latency_avg = 0;
}

-- The processor's exceptions, `isr_0_divide_error` to `isr_20_virtualization_exception`.
pub data Exception : Type 0 where
  divide_error debug_exception nmi_interrupt breakpoint overflow bound_range_exceeded : Exception
  invalid_opcode device_not_available double_fault coprocessor_segment_overrun : Exception
  invalid_tss segment_not_present stack_segment_fault general_protection_fault : Exception
  page_fault reserved_exception floating_point_exception alignment_check machine_check : Exception
  simd_floating_point_exception virtualization_exception : Exception

-- The lines of the interrupt controller, `irq_0_timer` to `irq_15_ata_secondary`.
pub data Line : Type 0 where
  timer keyboard cascade com2 com1 lpt2 floppy lpt1 rtc reserved_9 reserved_10 reserved_11 : Line
  mouse fpu ata_primary ata_secondary : Line

abbrev pub count_interrupt : InterruptController → InterruptController
count_interrupt c = record c { total_interrupts = u32 (c.total_interrupts + 1) }

-- All 21 exception routines have this one body.
pub isr : Exception → InterruptController → InterruptController
isr e c = count_interrupt c

-- The body shared by the routines that have a handler.
abbrev pub handle : ℕ → InterruptController → InterruptController × Option (ℕ × ℕ)
handle i c =
    let h = c.handlers i in
    let counted = record (count_interrupt c) {
      handlers = update c.handlers i (record h { handled_count = u32 (h.handled_count + 1) });
    } in
    (counted, if h.handler == 0 then none else some (h.handler, i))

-- The body of the others.
abbrev pub ignore : InterruptController → InterruptController × Option (ℕ × ℕ)
ignore c = (count_interrupt c, none)

pub irq : Line → InterruptController → InterruptController × Option (ℕ × ℕ)
irq timer c = handle 0 c
irq keyboard c = handle 1 c
irq cascade c = ignore c
irq com2 c = ignore c
irq com1 c = ignore c
irq lpt2 c = ignore c
irq floppy c = handle 6 c
irq lpt1 c = ignore c
irq rtc c = handle 8 c
irq reserved_9 c = ignore c
irq reserved_10 c = ignore c
irq reserved_11 c = ignore c
irq mouse c = handle 12 c
irq fpu c = ignore c
irq ata_primary c = handle 14 c
irq ata_secondary c = handle 15 c

-- Write one entry of the table.
abbrev pub put_handler : InterruptController → ℕ → IrqHandler → InterruptController
put_handler c i h = record c { handlers = update c.handlers i h }

-- A NULL name is `none`: the buffer then gets an empty name.
abbrev pub copy_name : Option (Array ℕ) → Array ℕ → Array ℕ
copy_name none dst = update dst 0 0
copy_name (some name) dst = copy_string 64 name dst

pub register_irq_handler : InterruptController → ℕ → ℕ → Option (Array ℕ) → InterruptController
register_irq_handler c i handler name =
    if leb irq_count i
    then c
    else put_handler c i (record (c.handlers i) {
      handler = handler;
      flags = 1;
      name = copy_name name (c.handlers i).name;
    })

pub unregister_irq_handler : InterruptController → ℕ → InterruptController
unregister_irq_handler c i =
    if leb irq_count i
    then c
    else put_handler c i (record (c.handlers i) { handler = 0; flags = 0 })

pub get_irq_handled_count : InterruptController → ℕ → ℕ
get_irq_handled_count c i = if leb irq_count i then 0 else (c.handlers i).handled_count

pub get_total_interrupts : InterruptController → ℕ
get_total_interrupts c = c.total_interrupts

-- `pic_send_eoi` computes a local variable that nothing reads.
pub pic_send_eoi : InterruptController → ℕ → InterruptController
pic_send_eoi c i = c

pub disable_all_interrupts : InterruptController → InterruptController
disable_all_interrupts c = record c { interrupts_disabled = 1 }

pub enable_all_interrupts : InterruptController → InterruptController
enable_all_interrupts c = record c { interrupts_disabled = 0 }

-- `~1` on a uint32_t.
abbrev pub all_but_one : ℕ
all_but_one = 2 ^ 32 - 1 - 1

pub mask_irq : InterruptController → ℕ → InterruptController
mask_irq c i =
    if leb irq_count i
    then c
    else put_handler c i
        (record (c.handlers i) { flags = bit_and (c.handlers i).flags all_but_one })

pub unmask_irq : InterruptController → ℕ → InterruptController
unmask_irq c i =
    if leb irq_count i
    then c
    else put_handler c i (record (c.handlers i) { flags = bit_or (c.handlers i).flags 1 })

pub is_irq_masked : InterruptController → ℕ → ℕ
is_irq_masked c i =
    if leb irq_count i then 1 else if bit_and (c.handlers i).flags 1 == 0 then 1 else 0

-- The words that `get_interrupt_stats` writes; it returns their size, 12.
pub get_interrupt_stats : InterruptController → ℕ × List ℕ
get_interrupt_stats c =
    (12, c.total_interrupts ∷ c.spurious_interrupts ∷ c.interrupt_latency_max ∷ [])
