-- ===== src/Interrupt/Tests.antt =====
-- ipts.c at concrete inputs.
use ea_x.Prelude.{ℕ, ◌+◌, ◌≡◌, refl, none, List, [], ◌∷◌, u32, leb, if◌then◌else◌, arith}
use ea_x.Interrupt.{
  IrqHandler, InterruptController, keyboard, divide_error, is_irq_masked, get_total_interrupts,
  get_irq_handled_count,
}
use ea_x.Interrupt.Masked.{mask_after_all, mask_after, run-mask_after}
use ea_x.Interrupt.Count
use ea_x.Interrupt.Calls.{all_made, all_due, due, handler_after, run-serves}
use ea_x.Interrupt.Count.{Event, exception, interrupt, run, counts, counts_at, sum_over}

abbrev no_handler : IrqHandler
no_handler = record { irq_number = 0; handler = 0; flags = 0; handled_count = 0; name = λ i. 0 }

-- The static variable before any call.
abbrev zeroed : InterruptController
zeroed = record {
  handlers = λ i. no_handler;
  total_interrupts = 0;
  interrupts_disabled = 0;
  spurious_interrupts = 0;
  interrupt_latency_max = 0;
  interrupt_latency_avg = 0;
}

abbrev history : List Event
history =
    interrupt keyboard
    ∷ exception divide_error
    ∷ Count.register 1 4096 none
    ∷ Count.mask 1
    ∷ interrupt keyboard
    ∷ []

-- The second interrupt finds the handler, masked or not.
run-serves_example :
    (all_made zeroed history ≡ (4096, 1) ∷ [])
    × (get_total_interrupts (run zeroed history) ≡ 3)
    × ((i : ℕ)
        → get_irq_handled_count (run zeroed history) i ≡ (
            if leb 16 i
            then 0
            else u32 (get_irq_handled_count zeroed i + sum_over (counts_at i) history)))
unfolding all_due due handler_after get_total_interrupts
run-serves_example = run-serves history zeroed (omega arith) (λ i. omega arith)

-- Three interrupts in all, two of them of the keyboard.
counted : (sum_over counts history ≡ 3) × (sum_over (counts_at 1) history ≡ 2)
counted = (refl, refl)

-- The mask of the last but one event is there after the interrupt.
run-mask_after_example : is_irq_masked (run zeroed history) 1 ≡ 1
unfolding mask_after_all mask_after
run-mask_after_example = run-mask_after history zeroed 1
