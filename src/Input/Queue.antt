-- ===== src/Input/Queue.antt =====
-- input.c: sequences of calls, and the events that wait.
use ea_x.Prelude.{
  ℕ, ◌+◌, ◌-◌, ◌≤◌, ◌<◌, ◌^◌, ◌≡◌, refl, ap, ◌∙◌, Option, none, some, List, [], ◌∷◌, ◌==◌, length,
  if◌then◌else◌, arith,
}
use ea_x.Input.{
  InputManager, counted, with_button, keyboard_set_key, mouse_set_position, mouse_set_button,
  mouse_set_wheel, mouse_set_acceleration, input_get_event, input_clear_queue,
}

pub data Op : Type 0 where
  key button : (which is_pressed : ℕ) → Op
  position : (x y : ℕ) → Op
  wheel : (delta : ℕ) → Op
  acceleration : (level : ℕ) → Op
  event clear : Op

unfoldable pub step : InputManager → Op → Option InputManager
step m (key which is_pressed) = some (keyboard_set_key m which is_pressed)
step m (button which is_pressed) = mouse_set_button m which is_pressed
step m (position x y) = some (mouse_set_position m x y)
step m (wheel delta) = some (mouse_set_wheel m delta)
step m (acceleration level) = some (mouse_set_acceleration m level)
step m event = some (input_get_event m).1
step m clear = some (input_clear_queue m)

unfoldable pub run : InputManager → List Op → Option InputManager
run m [] = some m
run m (op ∷ ops) = elim (step m op) [ none ↦ none | some m' ↦ run m' ops ]

-- The buttons are ones that the shift allows.
abbrev pub IsDefined : Op → Type 0
IsDefined (button which is_pressed) = which < 32
IsDefined _ = Unit {0}

abbrev pub AllDefined : List Op → Type 0
AllDefined [] = Unit {0}
AllDefined (op ∷ ops) = IsDefined op × AllDefined ops

-- The events that wait after a call.
unfoldable pub waiting : ℕ → Op → ℕ
waiting n (key which is_pressed) = n + 1
waiting n (button which is_pressed) = n + 1
waiting n (position x y) = n + 1
waiting n (wheel delta) = n + 1
waiting n (acceleration level) = n
waiting n event = n - 1
waiting n clear = 0

unfoldable pub all_waiting : ℕ → List Op → ℕ
all_waiting n [] = n
all_waiting n (op ∷ ops) = all_waiting (waiting n op) ops

step-waiting :
    (op : Op) (m : InputManager)
    → IsDefined op
    → m.input_events_queued + 1 < 2 ^ 32
    → (m' : InputManager) × (step m op ≡ some m')
      × (m'.input_events_queued ≡ waiting m.input_events_queued op)
      × (m'.input_events_queued ≤ m.input_events_queued + 1)
unfolding step waiting keyboard_set_key mouse_set_position mouse_set_button mouse_set_wheel
    mouse_set_acceleration input_get_event input_clear_queue
step-waiting (key which is_pressed) m d h =
    (keyboard_set_key m which is_pressed, refl, ground arith, ground arith)
step-waiting (button which is_pressed) m d h = (
  counted (record m {
    mouse = record m.mouse { button_state = with_button m.mouse.button_state which is_pressed };
  }),
  ground arith,
  ground arith,
  ground arith,
)
step-waiting (position x y) m d h = (mouse_set_position m x y, refl, ground arith, ground arith)
step-waiting (wheel delta) m d h = (mouse_set_wheel m delta, refl, ground arith, ground arith)
step-waiting (acceleration level) m d h =
    (mouse_set_acceleration m level, refl, ground arith, ground arith)
step-waiting event m d h = ((input_get_event m).1, refl, ground arith, ground arith)
step-waiting clear m d h = (input_clear_queue m, refl, ground arith, ground arith)

-- Every sequence of calls with buttons below 32 runs to its end, and leaves the events waiting that the
-- calls have made since the queue was last cleared, less those taken, where a take from an empty queue
-- takes none: a key, a button, a position and a wheel make one each, and the acceleration none. The
-- count must not reach 2^32.
pub run-all_waiting :
    (ops : List Op) (m : InputManager)
    → AllDefined ops
    → m.input_events_queued + length ops < 2 ^ 32
    → (m' : InputManager) × (run m ops ≡ some m')
      × (m'.input_events_queued ≡ all_waiting m.input_events_queued ops)
      × ((input_get_event m').0 ≡ (if all_waiting m.input_events_queued ops == 0 then 0 else 1))
unfolding run all_waiting
run-all_waiting [] m d room = unfold input_get_event in (m, refl, refl, ground arith)
run-all_waiting (op ∷ ops) m (defined, d) room =
    let (m1, ran1, left, le) = step-waiting op m defined (omega arith) in
    let (m', ran, left', got) = run-all_waiting ops m1 d (omega arith) in
    (
      m',
      ground (arith, ran),
      left' ∙ ap (λ n. all_waiting n ops) left,
      got ∙ ap (λ (n : ℕ). if◌then◌else◌ {A = ℕ} (all_waiting n ops == 0) 0 1) left,
    )
