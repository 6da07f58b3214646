-- ===== src/Interrupt/Calls.antt =====
-- The handlers that a sequence of interrupts and calls reaches.
use mathlib.Core.Path.{fun_ext}
use ea_x.Prelude.{
  ℕ, ◌+◌, ◌^◌, ◌<◌, ◌≡◌, refl, ap, ◌&&◌, not, none, some, List, [], ◌∷◌, ◌++◌, arith, u32, leb, ltb,
  ◌==◌, if◌then◌else◌,
}
use ea_x.Interrupt.{
  InterruptController, timer, isr, irq, register_irq_handler, unregister_irq_handler, mask_irq,
  unmask_irq, pic_send_eoi, disable_all_interrupts, enable_all_interrupts, get_total_interrupts,
  get_irq_handled_count,
}
use ea_x.Interrupt.Mask.{number, is_served}
use ea_x.Interrupt.Count.{
  Event, interrupt, register, unregister, step, run, counts, counts_at, sum_over, run-total,
  run-handled,
}

-- The calls that the routines make, each a handler and its argument.
unfoldable pub made : InterruptController → Event → List (ℕ × ℕ)
made c (interrupt l) = elim (irq l c).1 [ none ↦ [] | some call ↦ call ∷ [] ]
made c _ = []

unfoldable pub all_made : InterruptController → List Event → List (ℕ × ℕ)
all_made c [] = []
all_made c (e ∷ es) = made c e ++ all_made (step c e) es

-- The handler of line `i`, or 0, after an event, from the one before it.
unfoldable pub handler_after : (i before : ℕ) → Event → ℕ
handler_after i before (register line handler name) =
    if ltb line 16 && (line == i) then handler else before
handler_after i before (unregister line) = if ltb line 16 && (line == i) then 0 else before
handler_after i before _ = before

-- The calls due, from the handlers of the lines.
unfoldable pub due : (ℕ → ℕ) → Event → List (ℕ × ℕ)
due handler (interrupt l) =
    if is_served l && not (handler (number l) == 0) then (handler (number l), number l) ∷ [] else []
due handler _ = []

unfoldable pub all_due : (ℕ → ℕ) → List Event → List (ℕ × ℕ)
all_due handler [] = []
all_due handler (e ∷ es) = due handler e ++ all_due (λ i. handler_after i (handler i) e) es

abbrev pub handlers_of : InterruptController → ℕ → ℕ
handlers_of c i = (c.handlers i).handler

made-due : (c : InterruptController) (e : Event) → made c e ≡ due (handlers_of c) e
unfolding made due irq
made-due c (interrupt timer) = ground arith
made-due c (interrupt _) = ground arith
made-due c _ = refl

step-handler :
    (c : InterruptController) (e : Event) (i : ℕ)
    → handlers_of (step c e) i ≡ handler_after i (handlers_of c i) e
unfolding step handler_after isr irq register_irq_handler unregister_irq_handler mask_irq unmask_irq
    pic_send_eoi disable_all_interrupts enable_all_interrupts
step-handler c (interrupt timer) i = ground arith
step-handler c (interrupt _) i = ground arith
step-handler c _ i = ground arith

all_made-all_due :
    (es : List Event) (c : InterruptController) → all_made c es ≡ all_due (handlers_of c) es
unfolding all_made all_due
all_made-all_due [] c = refl
all_made-all_due (e ∷ es) c =
    let next : handlers_of (step c e) ≡ (λ i. handler_after i (handlers_of c i) e) =
      fun_ext (λ i. step-handler c e i) in
    rw (made-due c e, ← next)
      (ap (λ rest. due (handlers_of c) e ++ rest) (all_made-all_due es (step c e)))

-- From counts below 2^32, whatever happens: the handlers that are called, and their arguments, are those of
-- the interrupts on lines that look for a handler, in their order, where each is the handler that was last
-- registered for the line and is not NULL or unregistered since; a mask, or the disabling of all interrupts,
-- keeps none from being called. `get_total_interrupts` counts all exceptions and interrupts, and
-- `get_irq_handled_count` those on a line that looks for a handler, modulo 2^32.
pub run-serves :
    (es : List Event) (c : InterruptController)
    → c.total_interrupts < 2 ^ 32
    → ((i : ℕ) → (c.handlers i).handled_count < 2 ^ 32)
    → (all_made c es ≡ all_due (handlers_of c) es)
      × (get_total_interrupts (run c es) ≡ u32 (get_total_interrupts c + sum_over counts es))
      × ((i : ℕ)
          → get_irq_handled_count (run c es) i
            ≡ (if leb 16 i then 0 else u32 (get_irq_handled_count c i + sum_over (counts_at i) es)))
run-serves es c total handled =
    (all_made-all_due es c, run-total es c total, λ i. run-handled es c i (handled i))
