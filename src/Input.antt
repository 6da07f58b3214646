-- ===== src/Input.antt =====
-- input.c: the keyboard and the mouse.
--
-- A keycode and a button are bytes. A shift by 32 or more, which C leaves undefined, has no result.
pub mod Queue
pub mod Held
pub mod Types
mod Tests
use ea_x.Prelude.{
  ℕ, ◌+◌, ◌-◌, ◌/◌, ◌^◌, ◌==◌, ◌&&◌, Option, none, some, Array, update, u8, u32, leb, ltb,
  if◌then◌else◌, bit_and, bit_or,
}

pub record KeyboardDevice : Type 0 where
  pub is_connected : ℕ
  pub key_state : Array ℕ
  pub key_pressed : ℕ
  pub key_released : ℕ

-- `wheel_delta` is the bit pattern of an int32_t.
pub record MouseDevice : Type 0 where
  pub is_connected : ℕ
  pub x_position : ℕ
  pub y_position : ℕ
  pub button_state : ℕ
  pub wheel_delta : ℕ
  pub acceleration : ℕ

pub record InputManager : Type 0 where
  pub keyboard : KeyboardDevice
  pub mouse : MouseDevice
  pub input_events_queued : ℕ
  pub total_events_processed : ℕ

unfoldable pub input_init : InputManager → InputManager
input_init m = record {
  keyboard = record m.keyboard { is_connected = 1; key_pressed = 0; key_released = 0 };
  mouse = record {
    is_connected = 1;
    x_position = 960;
    y_position = 540;
    button_state = 0;
    acceleration = 1;
    wheel_delta = 0;
  };
  input_events_queued = 0;
  total_events_processed = 0;
}

-- `input_events_queued++`
abbrev pub queued : InputManager → InputManager
queued m = record m { input_events_queued = u32 (m.input_events_queued + 1) }

-- `input_events_queued++; total_events_processed++`
abbrev pub counted : InputManager → InputManager
counted m = record (queued m) { total_events_processed = u32 (m.total_events_processed + 1) }

unfoldable pub keyboard_set_key : InputManager → (keycode is_pressed : ℕ) → InputManager
keyboard_set_key m keycode is_pressed =
    let k = m.keyboard in
    counted (
      if is_pressed == 0
      then record m {
        keyboard = record k { key_state = update k.key_state keycode 0; key_released = keycode };
      }
      else record m {
        keyboard = record k { key_state = update k.key_state keycode 1; key_pressed = keycode };
      })

unfoldable pub keyboard_get_key : InputManager → (keycode : ℕ) → ℕ
keyboard_get_key m keycode = m.keyboard.key_state keycode

unfoldable pub mouse_set_position : InputManager → (x y : ℕ) → InputManager
mouse_set_position m x y =
    queued (record m { mouse = record m.mouse { x_position = x; y_position = y } })

unfoldable pub mouse_get_position : InputManager → ℕ × ℕ
mouse_get_position m = (m.mouse.x_position, m.mouse.y_position)

-- `button_state |= (1 << button)` and `button_state &= ~(1 << button)`, on an int and stored in a byte.
abbrev pub with_button : (state button is_pressed : ℕ) → ℕ
with_button state button is_pressed =
    if is_pressed == 0
    then u8 (bit_and state (2 ^ 32 - 1 - 2 ^ button))
    else u8 (bit_or state (2 ^ button))

unfoldable pub mouse_set_button : InputManager → (button is_pressed : ℕ) → Option InputManager
mouse_set_button m button is_pressed =
    if leb 32 button
    then none
    else some (
        counted (record m {
          mouse = record m.mouse {
            button_state = with_button m.mouse.button_state button is_pressed;
          };
        }))

unfoldable pub mouse_get_button : InputManager → (button : ℕ) → Option ℕ
mouse_get_button m button =
    if leb 32 button then none else some (bit_and (m.mouse.button_state / 2 ^ button) 1)

unfoldable pub mouse_set_wheel : InputManager → (delta : ℕ) → InputManager
mouse_set_wheel m delta = queued (record m { mouse = record m.mouse { wheel_delta = delta } })

unfoldable pub mouse_set_acceleration : InputManager → (level : ℕ) → InputManager
mouse_set_acceleration m level =
    if ltb 0 level && leb level 10
    then record m { mouse = record m.mouse { acceleration = level } }
    else m

unfoldable pub input_get_event : InputManager → ℕ × InputManager
input_get_event m =
    if m.input_events_queued == 0
    then (0, m)
    else (1, record m { input_events_queued = m.input_events_queued - 1 })

unfoldable pub input_clear_queue : InputManager → InputManager
input_clear_queue m = record m { input_events_queued = 0 }

-- The three words that are stored at `stats_buffer`.
unfoldable pub input_get_stats : InputManager → Array ℕ → ℕ × Array ℕ
input_get_stats m stats = (
  12,
  update (update (update stats 0 m.total_events_processed) 1 m.keyboard.is_connected) 2
      m.mouse.is_connected,
)
