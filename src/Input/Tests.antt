-- ===== src/Input/Tests.antt =====
-- input.c at concrete inputs.
use ea_x.Prelude.{ℕ, ◌≡◌, refl, some, List, [], ◌∷◌, Array, arith}
use ea_x.Input.{
  InputManager, input_init, keyboard_get_key, mouse_get_button, mouse_get_position, input_get_event,
  input_get_stats,
}
use ea_x.Input.Queue.{
  Op, key, button, position, wheel, acceleration, event, clear, run, waiting, all_waiting,
  run-all_waiting,
}
use ea_x.Input.Types.{IsTyped, input_init-IsTyped, run-IsTyped}
use ea_x.Input.Held.{key_after, button_after, after_all, run-held}

abbrev zeros : Array ℕ
zeros i = 0

abbrev cleared : InputManager
cleared = record {
  keyboard = record { is_connected = 0; key_state = zeros; key_pressed = 0; key_released = 0 };
  mouse = record {
    is_connected = 0;
    x_position = 0;
    y_position = 0;
    button_state = 0;
    wheel_delta = 0;
    acceleration = 0;
  };
  input_events_queued = 0;
  total_events_processed = 0;
}

abbrev booted : InputManager
booted = input_init cleared

abbrev calls : List Op
calls =
    event
    ∷ key 30 1
    ∷ button 2 1
    ∷ button 0 1
    ∷ clear
    ∷ button 0 0
    ∷ wheel 120
    ∷ acceleration 11
    ∷ event
    ∷ position 3 4
    ∷ []

-- The button, the wheel and the position, less one.
run-all_waiting_example :
    (m' : InputManager) × (run booted calls ≡ some m')
    × (m'.input_events_queued ≡ 2)
    × ((input_get_event m').0 ≡ 1)
unfolding input_init all_waiting waiting
run-all_waiting_example = run-all_waiting calls booted (omega arith) (omega arith)

run-held_example :
    (m' : InputManager) × (run booted calls ≡ some m')
    × (keyboard_get_key m' 30 ≡ 1)
    × (mouse_get_button m' 0 ≡ some 0)
unfolding input_init after_all key_after button_after
run-held_example = run-held calls booted 30 0 (omega arith) (omega arith)

run-IsTyped_example : (m' : InputManager) × (run booted calls ≡ some m') × IsTyped m'
run-IsTyped_example =
    run-IsTyped calls booted (omega arith) (input_init-IsTyped cleared (λ c. omega arith))

at_start : (mouse_get_position booted ≡ (960, 540)) × ((input_get_stats booted zeros).1 1 ≡ 1)
unfolding input_init mouse_get_position input_get_stats
at_start = (refl, refl)
