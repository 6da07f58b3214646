-- ===== src/Interrupt/Masked.antt =====
-- The mask of a line after any sequence of interrupts and calls.
use ea_x.Prelude.{ℕ, ◌≡◌, true, List, [], ◌∷◌, arith, leb, ltb, ◌==◌, if◌then◌else◌}
use ea_x.Interrupt.{
  InterruptController, timer, isr, irq, register_irq_handler, unregister_irq_handler, mask_irq,
  unmask_irq, is_irq_masked, pic_send_eoi, disable_all_interrupts, enable_all_interrupts,
}
use ea_x.Interrupt.Mask.{mask-flag, unmask-flag}
use ea_x.Interrupt.Count.{Event, interrupt, register, unregister, mask, unmask, step, run}

-- Whether line `j` is masked, 1 or 0, after an event, from whether it was before.
unfoldable pub mask_after : (j before : ℕ) → Event → ℕ
mask_after j before (mask line) = if line == j then 1 else before
mask_after j before (unmask line) = if line == j then 0 else before
mask_after j before (register line handler name) = if line == j then 0 else before
mask_after j before (unregister line) = if line == j then 1 else before
mask_after j before _ = before

unfoldable pub mask_after_all : (j before : ℕ) → List Event → ℕ
mask_after_all j before [] = before
mask_after_all j before (e ∷ es) = mask_after_all j (mask_after j before e) es

step-mask_after :
    (c : InterruptController) (e : Event) (j : ℕ)
    → ltb j 16 ≡ true
    → is_irq_masked (step c e) j ≡ mask_after j (is_irq_masked c j) e
unfolding step mask_after is_irq_masked isr irq register_irq_handler unregister_irq_handler mask_irq
    unmask_irq pic_send_eoi disable_all_interrupts enable_all_interrupts
step-mask_after c (mask line) j h = ground (arith, mask-flag (c.handlers line).flags)
step-mask_after c (unmask line) j h = ground (arith, unmask-flag (c.handlers line).flags)
step-mask_after c (interrupt timer) j h = ground arith
step-mask_after c (interrupt _) j h = ground arith
step-mask_after c _ j h = ground arith

-- After any sequence of exceptions, interrupts and calls, `is_irq_masked` tells of each of the 16 lines the
-- last call that set its mask: 1 after `mask_irq` and `unregister_irq_handler`, 0 after `unmask_irq` and
-- `register_irq_handler`, and what it told at the start if none of these named the line. No interrupt, end
-- of interrupt or global switch, and no call on another number, changes it. A number that is no line
-- always counts as masked.
pub run-mask_after :
    (es : List Event) (c : InterruptController) (j : ℕ)
    → is_irq_masked (run c es) j ≡ (if leb 16 j then 1 else mask_after_all j (is_irq_masked c j) es)
unfolding run mask_after_all
run-mask_after [] c j = unfold is_irq_masked in ground arith
run-mask_after (e ∷ es) c j = ground (arith, run-mask_after es (step c e) j, step-mask_after c e j)
