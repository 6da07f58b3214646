-- ===== src/Interrupt/Count.antt =====
-- The counts after any sequence of interrupts and calls.
use ea_x.Prelude.{
  ℕ, ◌+◌, ◌^◌, ◌<◌, ◌≡◌, ◌&&◌, Option, List, [], ◌∷◌, Array, arith, u32, leb, ◌==◌, if◌then◌else◌,
}
use ea_x.Interrupt.{
  InterruptController, Exception, Line, timer, isr, irq, register_irq_handler,
  unregister_irq_handler, mask_irq, unmask_irq, pic_send_eoi, disable_all_interrupts,
  enable_all_interrupts, get_total_interrupts, get_irq_handled_count,
}
use ea_x.Interrupt.Mask.{number, is_served}

-- What can happen to the controller.
pub data Event : Type 0 where
  exception : Exception → Event
  interrupt : Line → Event
  register : (line handler : ℕ) (name : Option (Array ℕ)) → Event
  unregister : (line : ℕ) → Event
  mask : (line : ℕ) → Event
  unmask : (line : ℕ) → Event
  end_of_interrupt : (line : ℕ) → Event
  disable enable : Event

unfoldable pub step : InterruptController → Event → InterruptController
step c (exception e) = isr e c
step c (interrupt l) = (irq l c).0
step c (register i handler name) = register_irq_handler c i handler name
step c (unregister i) = unregister_irq_handler c i
step c (mask i) = mask_irq c i
step c (unmask i) = unmask_irq c i
step c (end_of_interrupt i) = pic_send_eoi c i
step c disable = disable_all_interrupts c
step c enable = enable_all_interrupts c

unfoldable pub run : InterruptController → List Event → InterruptController
unfolding step
run c [] = c
run c (e ∷ es) = run (step c e) es

-- 1 for an exception or an interrupt.
abbrev pub counts : Event → ℕ
counts (exception e) = 1
counts (interrupt l) = 1
counts _ = 0

-- 1 for an interrupt on the served line `i`.
abbrev pub counts_at : ℕ → Event → ℕ
counts_at i (interrupt l) = if is_served l && (number l == i) then 1 else 0
counts_at i _ = 0

abbrev pub sum_over : (Event → ℕ) → List Event → ℕ
sum_over f [] = 0
sum_over f (e ∷ es) = f e + sum_over f es

step-total :
    (c : InterruptController) (e : Event)
    → c.total_interrupts < 2 ^ 32
    → (step c e).total_interrupts ≡ u32 (c.total_interrupts + counts e)
unfolding step isr irq register_irq_handler unregister_irq_handler mask_irq unmask_irq pic_send_eoi
    disable_all_interrupts enable_all_interrupts
step-total c (interrupt timer) h = ground arith
step-total c (interrupt _) h = ground arith
step-total c _ h = ground arith

step-handled :
    (c : InterruptController) (e : Event) (i : ℕ)
    → (c.handlers i).handled_count < 2 ^ 32
    → ((step c e).handlers i).handled_count ≡ u32 ((c.handlers i).handled_count + counts_at i e)
unfolding step isr irq register_irq_handler unregister_irq_handler mask_irq unmask_irq pic_send_eoi
    disable_all_interrupts enable_all_interrupts
step-handled c (interrupt timer) i h = ground arith
step-handled c (interrupt _) i h = ground arith
step-handled c _ i h = ground arith

-- From a count below 2^32, `get_total_interrupts` counts the exceptions and interrupts of any
-- history, modulo 2^32.
pub run-total :
    (es : List Event) (c : InterruptController)
    → c.total_interrupts < 2 ^ 32
    → get_total_interrupts (run c es) ≡ u32 (get_total_interrupts c + sum_over counts es)
unfolding run get_total_interrupts
run-total [] c h = omega arith
run-total (e ∷ es) c h =
    let now = step-total c e h in omega (arith, now, run-total es (step c e) (omega (arith, now)))

-- From a count below 2^32, `get_irq_handled_count` counts the interrupts on a line that looks for a
-- handler, modulo 2^32, and does not move on the other lines; it reads 0 beyond the table.
pub run-handled :
    (es : List Event) (c : InterruptController) (i : ℕ)
    → (c.handlers i).handled_count < 2 ^ 32
    → get_irq_handled_count (run c es) i
      ≡ (if leb 16 i then 0 else u32 (get_irq_handled_count c i + sum_over (counts_at i) es))
unfolding run get_irq_handled_count
run-handled [] c i h = ground arith
run-handled (e ∷ es) c i h =
    let now = step-handled c e i h in
    ground (arith, now, run-handled es (step c e) i (omega (arith, now)))
