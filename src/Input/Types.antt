-- ===== src/Input/Types.antt =====
-- input.c: the C types of the keyboard and the mouse.
use ea_x.Prelude.{
  Bool-cases, inl, inr, ltb, leb, ◌&&◌, ℕ, ◌≤◌, ◌<◌, ◌^◌, ◌≡◌, refl, some, List, [], ◌∷◌, ◌==◌,
  arith,
}
use ea_x.Input.{
  KeyboardDevice, MouseDevice, InputManager, input_init, counted, with_button, keyboard_set_key,
  mouse_set_position, mouse_set_button, mouse_set_wheel, mouse_set_acceleration, input_get_event,
  input_clear_queue,
}
use ea_x.Input.Queue.{Op, key, button, position, wheel, acceleration, event, clear, step, run}

-- Every field is a value of its C type; a key is up or down, and the acceleration is one that can be
-- set.
pub record IsKeyboard (k : KeyboardDevice) : Type 0 where
  pub connected : k.is_connected < 2 ^ 8
  pub keys : (c : ℕ) → k.key_state c < 2
  pub pressed : k.key_pressed < 2 ^ 8
  pub released : k.key_released < 2 ^ 8

pub record IsMouse (m : MouseDevice) : Type 0 where
  pub connected : m.is_connected < 2 ^ 8
  pub column : m.x_position < 2 ^ 32
  pub row : m.y_position < 2 ^ 32
  pub buttons : m.button_state < 2 ^ 8
  pub delta : m.wheel_delta < 2 ^ 32
  pub least : 0 < m.acceleration
  pub most : m.acceleration ≤ 10

pub record IsTyped (m : InputManager) : Type 0 where
  pub keyboard : IsKeyboard m.keyboard
  pub mouse : IsMouse m.mouse
  pub queued : m.input_events_queued < 2 ^ 32
  pub processed : m.total_events_processed < 2 ^ 32

-- The arguments of a call are values of their C types, and the button is one that the shift allows.
abbrev pub HasTypes : Op → Type 0
HasTypes (key which is_pressed) = (which < 2 ^ 8) × (is_pressed < 2 ^ 8)
HasTypes (button which is_pressed) = (which < 32) × (is_pressed < 2 ^ 8)
HasTypes (position x y) = (x < 2 ^ 32) × (y < 2 ^ 32)
HasTypes (wheel delta) = delta < 2 ^ 32
HasTypes (acceleration level) = level < 2 ^ 8
HasTypes event = Unit {0}
HasTypes clear = Unit {0}

abbrev pub AllTyped : List Op → Type 0
AllTyped [] = Unit {0}
AllTyped (op ∷ ops) = HasTypes op × AllTyped ops

pub input_init-IsTyped :
    (m : InputManager) → ((c : ℕ) → m.keyboard.key_state c < 2) → IsTyped (input_init m)
unfolding input_init
input_init-IsTyped m keys = record {
  keyboard = record {
    connected = omega arith;
    keys = keys;
    pressed = omega arith;
    released = omega arith;
  };
  mouse = record {
    connected = omega arith;
    column = omega arith;
    row = omega arith;
    buttons = omega arith;
    delta = omega arith;
    least = omega arith;
    most = omega arith;
  };
  queued = omega arith;
  processed = omega arith;
}

step-IsTyped :
    (op : Op) (m : InputManager)
    → HasTypes op
    → IsTyped m
    → (m' : InputManager) × (step m op ≡ some m') × IsTyped m'
unfolding step keyboard_set_key mouse_set_position mouse_set_button mouse_set_wheel
    mouse_set_acceleration input_get_event input_clear_queue
step-IsTyped (key which is_pressed) m (small, byte) v = (
  keyboard_set_key m which is_pressed,
  refl,
  elim (Bool-cases (is_pressed == 0)) [
    | inl up ↦ rw up (record {
      keyboard = record {
        connected = v.keyboard.connected;
        keys = λ c. ground (arith, v.keyboard.keys c);
        pressed = v.keyboard.pressed;
        released = small;
      };
      mouse = v.mouse;
      queued = omega arith;
      processed = omega arith;
    })
    | inr down ↦ rw down (record {
      keyboard = record {
        connected = v.keyboard.connected;
        keys = λ c. ground (arith, v.keyboard.keys c);
        pressed = small;
        released = v.keyboard.released;
      };
      mouse = v.mouse;
      queued = omega arith;
      processed = omega arith;
    })
  ],
)
step-IsTyped (button which is_pressed) m (small, byte) v = (
  counted (record m {
    mouse = record m.mouse { button_state = with_button m.mouse.button_state which is_pressed };
  }),
  ground arith,
  record {
    keyboard = v.keyboard;
    mouse = record {
      connected = v.mouse.connected;
      column = v.mouse.column;
      row = v.mouse.row;
      buttons = ground arith;
      delta = v.mouse.delta;
      least = v.mouse.least;
      most = v.mouse.most;
    };
    queued = omega arith;
    processed = omega arith;
  },
)
step-IsTyped (position x y) m (left, top) v = (
  mouse_set_position m x y,
  refl,
  record {
    keyboard = v.keyboard;
    mouse = record {
      connected = v.mouse.connected;
      column = left;
      row = top;
      buttons = v.mouse.buttons;
      delta = v.mouse.delta;
      least = v.mouse.least;
      most = v.mouse.most;
    };
    queued = omega arith;
    processed = v.processed;
  },
)
step-IsTyped (wheel delta) m small v = (
  mouse_set_wheel m delta,
  refl,
  record {
    keyboard = v.keyboard;
    mouse = record {
      connected = v.mouse.connected;
      column = v.mouse.column;
      row = v.mouse.row;
      buttons = v.mouse.buttons;
      delta = small;
      least = v.mouse.least;
      most = v.mouse.most;
    };
    queued = omega arith;
    processed = v.processed;
  },
)
step-IsTyped (acceleration level) m small v = (
  mouse_set_acceleration m level,
  refl,
  elim (Bool-cases (ltb 0 level && leb level 10)) [
    | inl set ↦ rw set (record {
      keyboard = v.keyboard;
      mouse = record {
        connected = v.mouse.connected;
        column = v.mouse.column;
        row = v.mouse.row;
        buttons = v.mouse.buttons;
        delta = v.mouse.delta;
        least = ground arith;
        most = ground arith;
      };
      queued = v.queued;
      processed = v.processed;
    })
    | inr other ↦ rw other v
  ],
)
step-IsTyped event m t v = (
  (input_get_event m).1,
  refl,
  elim (Bool-cases (m.input_events_queued == 0)) [
    | inl none_waits ↦ rw none_waits v
    | inr some_wait ↦ rw some_wait (record {
      keyboard = v.keyboard;
      mouse = v.mouse;
      queued = omega (arith, v.queued);
      processed = v.processed;
    })
  ],
)
step-IsTyped clear m t v = (
  input_clear_queue m,
  refl,
  record { keyboard = v.keyboard; mouse = v.mouse; queued = omega arith; processed = v.processed },
)

-- From a start where every field is a value of its C type, the acceleration is between 1 and 10, and a
-- key is up, 0, or down, 1, every sequence of calls runs to its end and leaves all this so, whatever
-- arguments of their C types the calls have, with buttons below 32.
pub run-IsTyped :
    (ops : List Op) (m : InputManager)
    → AllTyped ops
    → IsTyped m
    → (m' : InputManager) × (run m ops ≡ some m') × IsTyped m'
unfolding run
run-IsTyped [] m t v = (m, refl, v)
run-IsTyped (op ∷ ops) m (typed, t) v =
    let (m1, ran1, v1) = step-IsTyped op m typed v in
    let (m', ran, v') = run-IsTyped ops m1 t v1 in (m', rw (ran1, run) ran, v')
